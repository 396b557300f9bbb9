-- ===== src/Kernel/Exec/Stack/Args.antt =====
-- The argument strings, and the whole of what a program finds on its stack.
use astra_os.Base.{
  ℕ, ◌+◌, ◌*◌, ◌^◌, ◌≤◌, ◌<◌, ◌≡◌, ◌∙◌, refl, inr, arith, List, [], ◌∷◌, length, get_or, All,
}
use astra_os.Kernel.Bytes.{Mem, Outside}
use astra_os.Kernel.Exec.{Stacked, push_bytes, push_args, arg_bytes}
use astra_os.Kernel.Exec.Stack.{push_bytes-IsPushed, push_bytes_inside, length-arg_bytes}

-- each pointer points, within `[lo, hi)`, to its argument with a NUL
abbrev pub Holds : Mem → ℕ → ℕ → List ℕ → List (List ℕ) → Type 0
Holds m lo hi [] [] = Unit
Holds m lo hi (p ∷ ps) (a ∷ args) =
    (lo ≤ p)
    × (p + length (arg_bytes a) ≤ hi)
    × ((j : ℕ) → j < length (arg_bytes a) → m (p + j) ≡ get_or (arg_bytes a) j 0)
    × Holds m lo hi ps args
Holds m lo hi _ _ = ⊥

-- a change elsewhere, and a wider range
pub Holds-frame :
    (m m' : Mem) (lo lo' hi : ℕ) (ps : List ℕ) (args : List (List ℕ))
    → lo' ≤ lo
    → ((a : ℕ) → lo ≤ a → a < hi → m' a ≡ m a)
    → Holds m lo hi ps args
    → Holds m' lo' hi ps args
Holds-frame m m' lo lo' hi [] [] le same h = tt
Holds-frame m m' lo lo' hi (p ∷ ps) (a ∷ args) le same (above, below, bytes, rest) = (
  omega arith,
  below,
  λ j small. same (p + j) (omega arith) (omega arith) ∙ bytes j small,
  Holds-frame m m' lo lo' hi ps args le same rest,
)
Holds-frame m m' lo lo' hi [] (a ∷ args) le same h = h
Holds-frame m m' lo lo' hi (p ∷ ps) [] le same h = h

-- the outcome of the loop over the arguments
pub record ArePushed (args : List (List ℕ)) (s : Stacked) (ps : List ℕ) (t : Stacked) : Type 0 where
  pub count : length ps ≡ length args
  pub near : s.sp ≤ t.sp + 256 * length args
  pub down : t.sp ≤ s.sp
  pub same : (a : ℕ) → Outside t.sp s.sp a → t.mem a ≡ s.mem a
  pub holds : Holds t.mem t.sp s.sp ps args
  pub words : All (λ v. v < 2 ^ 32) ps

pub push_args-ArePushed :
    (args : List (List ℕ)) (s : Stacked)
    → 256 * length args ≤ s.sp
    → s.sp < 2 ^ 32
    → ArePushed args s (push_args args s).0 (push_args args s).1
unfolding push_args
push_args-ArePushed [] s room low = record {
  count = refl;
  near = omega arith;
  down = omega arith;
  same = λ a out. refl;
  holds = tt;
  words = tt;
}
push_args-ArePushed (arg ∷ args) s room low =
    let r = push_args-ArePushed args s (omega arith) low in
    let t = (push_args args s).1 in
    let short = length-arg_bytes arg in
    let fits : length (arg_bytes arg) ≤ t.sp = omega (arith, r.near, short) in
    let below : t.sp < 2 ^ 32 = omega (arith, r.down) in
    let top = push_bytes-IsPushed t (arg_bytes arg) fits below in
    let u = push_bytes t (arg_bytes arg) in
    record {
      count = omega (arith, r.count);
      near = omega (arith, r.near, short, top.down);
      down = omega (arith, r.down, top.down);
      same = λ a out.
          top.same a (omega (arith, r.down, top.down)) ∙ r.same a (omega (arith, r.down, top.down));
      holds = (
        omega arith,
        omega (arith, r.down, top.down),
        push_bytes_inside t (arg_bytes arg) fits below,
        Holds-frame t.mem u.mem t.sp u.sp s.sp (push_args args s).0 args (omega (arith, top.down))
            (λ a lo hi. top.same a (inr lo)) r.holds,
      );
      words = (omega (arith, r.down, top.down), r.words);
    }
