-- ===== src/Fs/Fat16/Path/Total.antt =====
-- `fat16_normalize_path` returns on short paths.
use astra_os.Base.{
  ℕ, suc, ◌+◌, ◌*◌, ◌≤◌, ◌<◌, ◌≡◌, ◌∙◌, refl, ap, true, arith, ◌==◌, ltb, if◌then◌else◌, if_ind,
  List, [], ◌∷◌, ◌++◌, length, Run, done, ◌>>=◌,
}
use astra_os.Fs.Fat16.Path.{
  slash, str_eq, pop_part, join_input, push_part, scan_parts, join_parts, fat16_normalize_path,
}

-- a run that returns a stack of at most `n` parts
abbrev Returns : ℕ → Run (List (List ℕ)) → Type 0
Returns n r = (stack : List (List ℕ)) × (r ≡ done stack) × (length stack ≤ n)

push_part-Returns :
    (part : List ℕ) (stack : List (List ℕ))
    → length stack < 16
    → Returns (length stack + 1) (push_part part stack)
unfolding push_part
push_part-Returns part stack room =
    let fits : ltb (length stack) 16 ≡ true = ground arith in
    if_ind (λ b. Returns (length stack + 1)) (str_eq part (b'.' ∷ []))
      (λ _. (stack, refl, omega arith))
      (λ _.
        if_ind (λ b. Returns (length stack + 1)) (str_eq part (b'.' ∷ b'.' ∷ []))
          (λ _. (pop_part stack, refl, popped stack))
          (λ _. (part ∷ stack, rw fits refl, omega arith)))
  where
    popped : (stack : List (List ℕ)) → length (pop_part stack) ≤ length stack + 1
    popped [] = omega arith
    popped (p ∷ stack) = omega arith

-- the characters that are left, and two for each part on the stack
scan_parts-Returns :
    (rest part : List ℕ) (stack : List (List ℕ))
    → 2 * length stack + length rest + (if length part == 0 then 0 else 1) ≤ 32
    → Returns 16 (scan_parts rest part stack)
unfolding scan_parts
scan_parts-Returns [] [] stack few = (stack, refl, omega arith)
scan_parts-Returns [] (p ∷ part) stack few =
    let few' : 2 * length stack + 1 ≤ 32 = ground arith in
    let (stack', e, le) = push_part-Returns (p ∷ part) stack (omega arith) in
    (stack', e, omega arith)
scan_parts-Returns (c ∷ rest) [] stack few =
    let few' : 2 * length stack + suc (length rest) ≤ 32 = ground arith in
    scan_parts-Returns rest (if c == slash then [] else c ∷ []) stack (
      if_ind
        (λ b (q : List ℕ). 2 * length stack + length rest + (if length q == 0 then 0 else 1) ≤ 32)
        (c == slash) (λ _. omega arith) (λ _. omega arith))
scan_parts-Returns (c ∷ rest) (p ∷ part) stack few =
    let few' : 2 * length stack + suc (length rest) + 1 ≤ 32 = ground arith in
    let (stack', e, le) = push_part-Returns (p ∷ part) stack (omega arith) in
    let ended = scan_parts-Returns rest [] stack' (omega arith) in
    let longer =
      scan_parts-Returns rest
        (if ltb (length (p ∷ part)) 31 then (p ∷ part) ++ c ∷ [] else p ∷ part) stack
        (if_ind
          (λ b (q : List ℕ). 2 * length stack + length rest + (if length q == 0 then 0 else 1) ≤ 32)
          (ltb (length (p ∷ part)) 31) (λ _. ground arith) (λ _. ground arith)) in
    if_ind (λ b. Returns 16) (c == slash)
      (λ _.
        (ended.0, ap (λ (r : Run (List (List ℕ))). r >>= scan_parts rest []) e ∙ ended.1, ended.2))
      (λ _. longer)

-- When the string that is scanned, as `join_input` puts it together with the slash that it adds, has
-- at most 32 characters, `fat16_normalize_path` returns a path: neither of its buffers is too small.
pub normalize_path-done :
    (base input : List ℕ)
    → length (join_input base input) ≤ 32
    → (path : List ℕ) × (fat16_normalize_path base input ≡ done path)
unfolding fat16_normalize_path
normalize_path-done base input short =
    let (stack, e, le) = scan_parts-Returns (join_input base input) [] [] (omega arith) in
    let room : ltb (length (join_input base input)) 128 ≡ true = ground arith in
    (slash ∷ join_parts stack [], rw (room, e) refl)
