-- ===== src/Fs/Fat16/Path/Normal.antt =====
-- `fat16_normalize_path` stays within its buffers and returns canonical paths.
use astra_os.Base.{
  ℕ, ◌≤◌, ◌<◌, ◌≡◌, ◌∙◌, refl, sym, true, inl, inr, arith, ltb, Bool-cases, List, [], ◌∷◌, length,
  All, done, bind-done,
}
use mathlib.Core.Path.{subst}
use astra_os.Fs.Fat16.Path.{
  slash, join_input, scan_parts, join_parts, fat16_normalize_path, starts_with_slash,
}
use astra_os.Fs.Fat16.Path.Canonical.{IsPart, IsStack, scan_skip, scan-IsStack}
use astra_os.Fs.Fat16.Path.Rejoin.{scan-join_parts, length-join_nil}

-- a slash, and at most 16 parts with a slash between them
pub record IsCanonical (path : List ℕ) : Type 0 where
  pub stack : List (List ℕ)
  pub parts : All IsPart stack
  pub depth : length stack ≤ 16
  pub rendered : path ≡ slash ∷ join_parts stack []

starts_with-join_input :
    (base input : List ℕ)
    → starts_with_slash base ≡ true
    → starts_with_slash (join_input base input) ≡ true
unfolding join_input
starts_with-join_input (b ∷ base) input h = ground arith
starts_with-join_input [] input h = cc

normalize-scan :
    (base input path : List ℕ)
    → fat16_normalize_path base input ≡ done path
    → (stack : List (List ℕ)) × (scan_parts (join_input base input) [] [] ≡ done stack)
      × (path ≡ slash ∷ join_parts stack [])
      × (length (join_input base input) < 128)
unfolding fat16_normalize_path
normalize-scan base input path h = elim (Bool-cases (ltb (length (join_input base input)) 128)) [
  | inl room ↦
      let (stack, e, f) =
        bind-done (scan_parts (join_input base input) [] [])
          (λ stack. done (slash ∷ join_parts stack [])) (rw room at h) in
      (stack, e, ground arith, ground arith)
  | inr full ↦ absurd (ground arith)
]

-- a scan of a string that begins with a slash
scan_from_slash :
    (temp : List ℕ) (stack : List (List ℕ))
    → starts_with_slash temp ≡ true
    → scan_parts temp [] [] ≡ done stack
    → IsStack (length temp) stack
scan_from_slash [] stack h e = cc
scan_from_slash (c ∷ rest) stack h e =
    subst (λ n. IsStack n stack) (omega arith)
      (scan-IsStack rest [] 0 [] stack (omega arith) refl
        (record { parts = tt; depth = omega arith; size = omega arith })
        (scan_skip c rest [] h ∙ e))

scan_joined :
    (stack : List (List ℕ))
    → All IsPart stack
    → length stack ≤ 16
    → scan_parts (slash ∷ slash ∷ join_parts stack []) [] [] ≡ done stack
scan_joined stack parts depth =
    sym (scan_skip slash (slash ∷ join_parts stack []) [] refl)
    ∙ sym (scan_skip slash (join_parts stack []) [] refl)
    ∙ scan-join_parts stack [] parts depth refl
    ∙ (unfold scan_parts in refl)

joined_again :
    (base : List ℕ) (stack : List (List ℕ))
    → All IsPart stack
    → length stack ≤ 16
    → length (slash ∷ join_parts stack []) ≤ 126
    → fat16_normalize_path base (slash ∷ join_parts stack []) ≡ done (slash ∷ join_parts stack [])
unfolding fat16_normalize_path join_input
joined_again base stack parts depth short =
    let room : ltb (length (slash ∷ slash ∷ join_parts stack [])) 128 ≡ true = ground arith in
    rw (room, scan_joined stack parts depth) refl

module _ (base input path : List ℕ) where
  -- From a base that begins with a slash, a path that is returned fits the 128 bytes of `out` with
  -- its NUL, and is a slash and at most 16 parts: none empty, ".", ".." or with a slash in it, and
  -- none longer than the 31 characters of `part`.
  pub normalize_path-IsCanonical :
      starts_with_slash base ≡ true
      → fat16_normalize_path base input ≡ done path
      → IsCanonical path × (length path ≤ 127)
  normalize_path-IsCanonical rooted h =
      let (stack, e, r, short) = normalize-scan base input path h in
      let s =
        scan_from_slash (join_input base input) stack (starts_with-join_input base input rooted)
          e in
      (
        record { stack = stack; parts = s.parts; depth = s.depth; rendered = r },
        subst (λ q. length q ≤ 127) (sym r)
            (length-join_nil 127 stack (omega (arith, s.size)) (omega arith)),
      )

  -- A path of at most 126 characters that is a slash and at most 16 parts with a slash between
  -- them, each of at most 31 characters, not empty, not ".", not ".." and with no slash in it,
  -- normalizes to itself from any base.
  pub normalize_path_again :
      IsCanonical path → length path ≤ 126 → fat16_normalize_path base path ≡ done path
  normalize_path_again c short =
      subst (λ q. fat16_normalize_path base q ≡ done q) (sym c.rendered)
        (joined_again base c.stack c.parts c.depth (subst (λ q. length q ≤ 126) c.rendered short))
