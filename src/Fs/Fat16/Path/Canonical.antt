-- ===== src/Fs/Fat16/Path/Canonical.antt =====
-- What `fat16_normalize_path` returns is canonical: it normalizes to itself.
use astra_os.Base.{
  ℕ, ◌+◌, ◌≤◌, ◌≡◌, ◌≢◌, ◌∙◌, refl, Bool, true, false, inl, inr, arith, ◌==◌, ltb, if◌then◌else◌,
  Bool-cases, List, [], ◌∷◌, ◌++◌, length, length-append, All, done, ◌>>=◌, bind-done,
}
use mathlib.Core.Path.{subst}
use astra_os.Fs.Fat16.Path.{slash, str_eq, pop_part, push_part, scan_parts}

abbrev pub has_slash : List ℕ → Bool
has_slash [] = false
has_slash (c ∷ r) = if c == slash then true else has_slash r

-- a part as it stands on the stack
pub record IsPart (p : List ℕ) : Type 0 where
  pub ne_nil : p ≢ []
  pub fits : length p ≤ 31
  pub no_slash : has_slash p ≡ false
  pub ne_dot : str_eq p (b'.' ∷ []) ≡ false
  pub ne_dots : str_eq p (b'.' ∷ b'.' ∷ []) ≡ false

-- the characters of the parts, with a slash for each
abbrev pub weight : List (List ℕ) → ℕ
weight [] = 0
weight (p ∷ stack) = length p + 1 + weight stack

-- the stack that a scan over `n` characters may have built
pub record IsStack (n : ℕ) (stack : List (List ℕ)) : Type 0 where
  pub parts : All IsPart stack
  pub depth : length stack ≤ 16
  pub size : weight stack ≤ n

IsStack-mono : {n m : ℕ} {stack : List (List ℕ)} → n ≤ m → IsStack n stack → IsStack m stack
IsStack-mono le s = record { parts = s.parts; depth = s.depth; size = omega (arith, s.size) }

IsStack-pop : {n : ℕ} (stack : List (List ℕ)) → IsStack n stack → IsStack n (pop_part stack)
IsStack-pop [] s = s
IsStack-pop (p ∷ stack) s = record {
  parts = s.parts.1;
  depth = omega (arith, s.depth);
  size = omega (arith, s.size);
}

push_part-IsStack :
    (n : ℕ) (part : List ℕ) (stack stack' : List (List ℕ))
    → part ≢ []
    → length part ≤ 31
    → has_slash part ≡ false
    → IsStack n stack
    → push_part part stack ≡ done stack'
    → IsStack (n + length part + 1) stack'
unfolding push_part
push_part-IsStack n part stack stack' ne fits clean s h =
    elim (Bool-cases (str_eq part (b'.' ∷ []))) [
      | inl dot ↦
          let e : stack ≡ stack' = ground arith in
          subst (IsStack (n + length part + 1)) e (IsStack-mono (omega arith) s)
      | inr ne_dot ↦ elim (Bool-cases (str_eq part (b'.' ∷ b'.' ∷ []))) [
        | inl dots ↦
            let e : pop_part stack ≡ stack' = ground arith in
            subst (IsStack (n + length part + 1)) e
              (IsStack-mono (omega arith) (IsStack-pop stack s))
        | inr ne_dots ↦ elim (Bool-cases (ltb (length stack) 16)) [
          | inl room ↦
              let e : part ∷ stack ≡ stack' = ground arith in
              subst (IsStack (n + length part + 1)) e (record {
                parts = (
                  record {
                    ne_nil = ne;
                    fits = fits;
                    no_slash = clean;
                    ne_dot = ne_dot;
                    ne_dots = ne_dots;
                  },
                  s.parts,
                );
                depth = ground arith;
                size = omega (arith, s.size);
              })
          | inr full ↦ absurd (ground arith)
        ]
      ]
    ]

has_slash-append :
    (p q : List ℕ) → has_slash p ≡ false → has_slash q ≡ false → has_slash (p ++ q) ≡ false
has_slash-append [] q hp hq = hq
has_slash-append (c ∷ p) q hp hq = ground (arith, has_slash-append p q)

-- the scan, one character at a time
module _ (c : ℕ) (rest : List ℕ) where
  pub scan_skip :
      (stack : List (List ℕ))
      → (c == slash) ≡ true
      → scan_parts rest [] stack ≡ scan_parts (c ∷ rest) [] stack
  unfolding scan_parts
  scan_skip stack h = rw h

  pub scan_start :
      (stack : List (List ℕ))
      → (c == slash) ≡ false
      → scan_parts rest (c ∷ []) stack ≡ scan_parts (c ∷ rest) [] stack
  unfolding scan_parts
  scan_start stack h = rw h

  module _ (p : ℕ) (part : List ℕ) (stack : List (List ℕ)) where
    pub scan_push :
        (c == slash) ≡ true
        → (push_part (p ∷ part) stack >>= scan_parts rest [])
          ≡ scan_parts (c ∷ rest) (p ∷ part) stack
    unfolding scan_parts
    scan_push h = rw h

    pub scan_char :
        (c == slash) ≡ false
        → ltb (length (p ∷ part)) 31 ≡ true
        → scan_parts rest ((p ∷ part) ++ c ∷ []) stack ≡ scan_parts (c ∷ rest) (p ∷ part) stack
    unfolding scan_parts
    scan_char h room = rw (h, room)

    pub scan_drop :
        (c == slash) ≡ false
        → ltb (length (p ∷ part)) 31 ≡ false
        → scan_parts rest (p ∷ part) stack ≡ scan_parts (c ∷ rest) (p ∷ part) stack
    unfolding scan_parts
    scan_drop h full = rw (h, full)

-- the scan keeps such a stack, and what is left to read bounds what it may still push
pub scan-IsStack :
    (rest part : List ℕ) (n : ℕ) (stack stack' : List (List ℕ))
    → length part ≤ 31
    → has_slash part ≡ false
    → IsStack n stack
    → scan_parts rest part stack ≡ done stack'
    → IsStack (n + length part + 1 + length rest) stack'
unfolding scan_parts
scan-IsStack [] [] n stack stack' fits clean s h =
    let e : stack ≡ stack' = ground arith in
    subst (IsStack (n + 0 + 1 + 0)) e (IsStack-mono (omega arith) s)
scan-IsStack [] (p ∷ part) n stack stack' fits clean s h =
    IsStack-mono (omega arith)
      (push_part-IsStack n (p ∷ part) stack stack' (λ e. cc e) fits clean s h)
scan-IsStack (c ∷ rest) [] n stack stack' fits clean s h = elim (Bool-cases (c == slash)) [
  | inl sep ↦
      IsStack-mono (omega arith)
        (scan-IsStack rest [] n stack stack' fits clean s (scan_skip c rest stack sep ∙ h))
  | inr char ↦ IsStack-mono (omega arith) (
      scan-IsStack rest (c ∷ []) n stack stack' (omega arith) (ground arith) s
        (scan_start c rest stack char ∙ h))
]
scan-IsStack (c ∷ rest) (p ∷ part) n stack stack' fits clean s h = elim (Bool-cases (c == slash)) [
  | inl sep ↦
      let (mid, pushed, after) =
        bind-done (push_part (p ∷ part) stack) (scan_parts rest [])
          (scan_push c rest p part stack sep ∙ h) in
      let m = push_part-IsStack n (p ∷ part) stack mid (λ e. cc e) fits clean s pushed in
      IsStack-mono (omega arith)
        (scan-IsStack rest [] (n + length (p ∷ part) + 1) mid stack' (omega arith) refl m after)
  | inr char ↦ elim (Bool-cases (ltb (length (p ∷ part)) 31)) [
    | inl room ↦
        let longer = length-append (p ∷ part) (c ∷ []) in
        let still = has_slash-append (p ∷ part) (c ∷ []) clean (ground arith) in
        IsStack-mono (omega (arith, longer)) (
          scan-IsStack rest ((p ∷ part) ++ c ∷ []) n stack stack' (ground (arith, longer)) still s
            (scan_char c rest p part stack char room ∙ h))
    | inr full ↦ IsStack-mono (omega arith) (
        scan-IsStack rest (p ∷ part) n stack stack' fits clean s
          (scan_drop c rest p part stack char full ∙ h))
  ]
]
