-- ===== src/Fs/Fat16/Path/Rejoin.antt =====
-- Scanning the joined parts gives the parts back.
use astra_os.Base.{
  ℕ, ◌+◌, ◌≤◌, ◌<◌, ◌≡◌, ◌∙◌, refl, ap, sym, Bool, true, false, arith, ◌==◌, List, [], ◌∷◌, ◌++◌,
  length, length-append, All, done, ◌>>=◌,
}
use mathlib.Core.List.{append_assoc, append-nil}
use astra_os.Fs.Fat16.Path.Canonical.{
  has_slash, IsPart, weight, scan_skip, scan_start, scan_push, scan_char,
}
use astra_os.Fs.Fat16.Path.{slash, push_part, scan_parts, join_parts}

-- what stands behind a part: nothing, or a slash
abbrev pub at_boundary : List ℕ → Bool
at_boundary [] = true
at_boundary (c ∷ r) = c == slash

-- a part without a slash is read to its end
read_part :
    (q : List ℕ) (p : ℕ) (part out : List ℕ) (stack : List (List ℕ))
    → length (p ∷ part) + length q ≤ 31
    → has_slash q ≡ false
    → scan_parts (q ++ out) (p ∷ part) stack ≡ scan_parts out ((p ∷ part) ++ q) stack
read_part [] p part out stack fits clean = rw append-nil
read_part (c ∷ q) p part out stack fits clean =
    sym (scan_char c (q ++ out) p part stack (ground arith) (ground arith))
    ∙ read_part q p (part ++ c ∷ []) out stack (omega (arith, length-append part (c ∷ [])))
        (ground arith)
    ∙ ap (λ r. scan_parts out (p ∷ r) stack) (append_assoc part (c ∷ []) q)

push_part-IsPart :
    (p : List ℕ) (stack : List (List ℕ))
    → IsPart p
    → length stack < 16
    → push_part p stack ≡ done (p ∷ stack)
unfolding push_part
push_part-IsPart p stack is room = ground arith

-- a part that stands at a boundary is pushed as it is
scan_whole_part :
    (p out : List ℕ) (stack : List (List ℕ))
    → IsPart p
    → length stack < 16
    → at_boundary out ≡ true
    → scan_parts (p ++ out) [] stack ≡ scan_parts out [] (p ∷ stack)
scan_whole_part [] out stack is room end = absurd (is.ne_nil refl)
scan_whole_part (c ∷ p) out stack is room end =
    sym (scan_start c (p ++ out) stack (ground arith))
    ∙ read_part p c [] out stack (omega (arith, is.fits)) (ground arith)
    ∙ finish out end
  where
    finish :
        (out : List ℕ)
        → at_boundary out ≡ true
        → scan_parts out (c ∷ p) stack ≡ scan_parts out [] ((c ∷ p) ∷ stack)
    finish [] end = unfold scan_parts in push_part-IsPart (c ∷ p) stack is room
    finish (d ∷ r) end =
        sym (scan_push d r c p stack end)
        ∙ ap (λ m. m >>= scan_parts r []) (push_part-IsPart (c ∷ p) stack is room)
        ∙ scan_skip d r ((c ∷ p) ∷ stack) end

-- the scan of the joined parts builds the stack that was joined
pub scan-join_parts :
    (stack : List (List ℕ)) (out : List ℕ)
    → All IsPart stack
    → length stack ≤ 16
    → at_boundary out ≡ true
    → scan_parts (join_parts stack out) [] [] ≡ scan_parts out [] stack
unfolding join_parts
scan-join_parts [] out parts depth end = refl
scan-join_parts (p ∷ []) out parts depth end = scan_whole_part p out [] parts.0 (omega arith) end
scan-join_parts (p ∷ q ∷ stack) out parts depth end =
    scan-join_parts (q ∷ stack) (slash ∷ p ++ out) parts.1 (omega arith) refl
    ∙ sym (scan_skip slash (p ++ out) (q ∷ stack) refl)
    ∙ scan_whole_part p out (q ∷ stack) parts.0 (omega arith) end

length-join_parts :
    (p : List ℕ) (stack : List (List ℕ)) (out : List ℕ)
    → length (join_parts (p ∷ stack) out) + 1 ≡ weight (p ∷ stack) + length out
unfolding join_parts
length-join_parts p [] out = omega (arith, length-append p out)
length-join_parts p (q ∷ stack) out =
    omega (arith, length-append p out, length-join_parts q stack (slash ∷ p ++ out))

pub length-join_nil :
    (n : ℕ) (stack : List (List ℕ))
    → weight stack ≤ n
    → 1 ≤ n
    → length (slash ∷ join_parts stack []) ≤ n
length-join_nil n [] h pos = unfold join_parts in omega arith
length-join_nil n (p ∷ stack) h pos = omega (arith, length-join_parts p stack [])
