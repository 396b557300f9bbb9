-- ===== src/Kernel/Exec/Stack/Layout.antt =====
-- The stack that `build_user_stack` leaves.
use astra_os.Base.{
  ℕ, ◌+◌, ◌*◌, ◌^◌, ◌≤◌, ◌<◌, ◌≡◌, ◌∙◌, ap, inr, arith, List, length, take, get_or, length-take-le,
}
use astra_os.Kernel.Bytes.{Mem, Outside}
use astra_os.Kernel.Exec.{
  Stacked, push_args, push_u32, push_words, align_down, build_user_stack, user_stack_base,
  user_stack_top,
}
use astra_os.Kernel.Exec.Stack.{IsPushed}
use astra_os.Kernel.Exec.Stack.Words.{
  read_u32, push_u32-IsPushed, read-push_u32, read_u32-IsPushed, push_words-IsPushed,
  read-push_words,
}
use astra_os.Kernel.Exec.Stack.Args.{Holds, Holds-frame, ArePushed, push_args-ArePushed}

-- `s` holds the arguments `args`, with `argc` at the stack pointer, `argv` above it, and its words,
-- a NULL last; what lies outside the stack is as in `m`
pub record IsLayout (args : List (List ℕ)) (m : Mem) (s : Stacked) : Type 0 where
  pub above : user_stack_base ≤ s.sp
  pub below : s.sp < user_stack_top
  pub argc : read_u32 s.mem s.sp ≡ length args
  pub argv : read_u32 s.mem (s.sp + 4) ≡ s.sp + 8
  pub pointers : List ℕ
  pub vector : (i : ℕ) → i < length args → read_u32 s.mem (s.sp + 8 + 4 * i) ≡ get_or pointers i 0
  pub last : read_u32 s.mem (s.sp + 8 + 4 * length args) ≡ 0
  pub strings : Holds s.mem s.sp user_stack_top pointers args
  pub same : (a : ℕ) → Outside s.sp user_stack_top a → s.mem a ≡ m a

module _ (args : List (List ℕ)) (m : Mem) (ps : List ℕ) (t : Stacked) (few : length args ≤ 32)
    (r : ArePushed args (record { sp = user_stack_top; mem = m }) ps t) where
  abbrev aligned : Stacked
  aligned = record t { sp = align_down t.sp 16 }

  aligned_near : (aligned.sp ≤ t.sp) × (t.sp ≤ aligned.sp + 15)
  unfolding align_down
  aligned_near = omega arith

  abbrev ended : Stacked
  ended = push_u32 aligned 0

  abbrev vector_of : Stacked
  vector_of = push_words ps ended

  abbrev with_argv : Stacked
  with_argv = push_u32 vector_of vector_of.sp

  abbrev final : Stacked
  final = push_u32 with_argv (length args)

  ended-IsPushed : IsPushed 4 aligned ended
  ended-IsPushed =
      push_u32-IsPushed aligned 0 (omega (arith, aligned_near, r.near, few))
        (omega (arith, aligned_near, r.down))

  vector-IsPushed : IsPushed (4 * length ps) ended vector_of
  vector-IsPushed =
      push_words-IsPushed ps ended
        (omega (arith, ended-IsPushed.down, aligned_near, r.near, few, r.count))
        (omega (arith, ended-IsPushed.down, aligned_near, r.down))

  argv-IsPushed : IsPushed 4 vector_of with_argv
  argv-IsPushed =
      push_u32-IsPushed vector_of vector_of.sp
        (omega
          (arith, vector-IsPushed.down, ended-IsPushed.down, aligned_near, r.near, few, r.count))
        (omega (arith, vector-IsPushed.down, ended-IsPushed.down, aligned_near, r.down))

  final-IsPushed : IsPushed 4 with_argv final
  final-IsPushed =
      push_u32-IsPushed with_argv (length args)
        (omega (
          arith, argv-IsPushed.down, vector-IsPushed.down, ended-IsPushed.down, aligned_near,
          r.near, few, r.count,
        ))
        (omega (
          arith, argv-IsPushed.down, vector-IsPushed.down, ended-IsPushed.down, aligned_near,
          r.down,
        ))

  all_down : final.sp + 12 + 4 * length args ≡ aligned.sp
  all_down = omega (
    arith, final-IsPushed.down, argv-IsPushed.down, vector-IsPushed.down, ended-IsPushed.down,
    r.count,
  )

  -- everything from the stack pointer of the strings on is as the loop over them left it
  kept : (a : ℕ) → Outside final.sp aligned.sp a → final.mem a ≡ t.mem a
  kept a out =
      final-IsPushed.same a
        (omega (arith, all_down, final-IsPushed.down, argv-IsPushed.down, vector-IsPushed.down))
      ∙ argv-IsPushed.same a
          (omega (arith, all_down, final-IsPushed.down, argv-IsPushed.down, vector-IsPushed.down))
      ∙ vector-IsPushed.same a
          (omega (arith, all_down, final-IsPushed.down, argv-IsPushed.down, ended-IsPushed.down))
      ∙ ended-IsPushed.same a (omega (arith, all_down, ended-IsPushed.down))

  -- a word of the vector or above it, behind the two last pushes
  above_words : (a : ℕ) → vector_of.sp ≤ a → read_u32 final.mem a ≡ read_u32 vector_of.mem a
  above_words a le =
      read_u32-IsPushed with_argv final a final-IsPushed (omega (arith, argv-IsPushed.down))
      ∙ read_u32-IsPushed vector_of with_argv a argv-IsPushed le

  low_vector : vector_of.sp < 2 ^ 32
  low_vector = omega (arith, vector-IsPushed.down, ended-IsPushed.down, aligned_near, r.down)

  argv_word : read_u32 final.mem (final.sp + 4) ≡ final.sp + 8
  argv_word =
      let e : final.sp + 4 ≡ with_argv.sp = omega (arith, final-IsPushed.down) in
      let f : vector_of.sp ≡ final.sp + 8 =
        omega (arith, final-IsPushed.down, argv-IsPushed.down) in
      ap (read_u32 final.mem) e
      ∙ read_u32-IsPushed with_argv final with_argv.sp final-IsPushed (omega arith)
      ∙ read-push_u32 vector_of vector_of.sp (omega (arith, argv-IsPushed.down)) low_vector
          low_vector
      ∙ f

  vector_word : (i : ℕ) → i < length ps → read_u32 final.mem (final.sp + 8 + 4 * i) ≡ get_or ps i 0
  vector_word i h =
      let e : final.sp + 8 + 4 * i ≡ vector_of.sp + 4 * i =
        omega (arith, final-IsPushed.down, argv-IsPushed.down) in
      rw e (
        above_words (vector_of.sp + 4 * i) (omega arith)
        ∙ read-push_words ps ended (omega (arith, vector-IsPushed.down))
            (omega (arith, ended-IsPushed.down, aligned_near, r.down)) r.words i h)

  last_word : read_u32 final.mem (final.sp + 8 + 4 * length args) ≡ 0
  last_word =
      let e : final.sp + 8 + 4 * length args ≡ ended.sp =
        omega (arith, all_down, ended-IsPushed.down) in
      rw e (
        above_words ended.sp (omega (arith, vector-IsPushed.down))
        ∙ read_u32-IsPushed ended vector_of ended.sp vector-IsPushed (omega arith)
        ∙ read-push_u32 aligned 0 (omega (arith, ended-IsPushed.down))
            (omega (arith, aligned_near, r.down)) (omega arith))

  final-IsLayout : IsLayout args m final
  final-IsLayout = record {
    above = omega (arith, all_down, aligned_near, r.near, few);
    below = omega (arith, all_down, aligned_near, r.down);
    argc =
        read-push_u32 with_argv (length args) (omega (arith, final-IsPushed.down))
          (omega (
            arith, argv-IsPushed.down, vector-IsPushed.down, ended-IsPushed.down, aligned_near,
            r.down,
          ))
          (omega arith);
    argv = argv_word;
    pointers = ps;
    vector = λ i h. vector_word i (omega (arith, r.count));
    last = last_word;
    strings =
        Holds-frame t.mem final.mem t.sp final.sp user_stack_top ps args
          (omega (arith, all_down, aligned_near))
          (λ a lo hi. kept a (inr (omega (arith, aligned_near)))) r.holds;
    same = λ a out.
        kept a (omega (arith, all_down, aligned_near, r.down))
        ∙ r.same a (omega (arith, all_down, aligned_near));
  }

-- For any arguments, of which the first 32 are passed and each is cut to 255 characters, the stack
-- fits its 16 KB, so that the test of the stack pointer in `kernel_exec_elf_argv` passes; `argc`,
-- `argv`, the vector with its NULL and the strings stand where the program looks for them; and no
-- byte outside the stack is written.
pub build_user_stack-IsLayout :
    (argv : List (List ℕ)) (m : Mem)
    → IsLayout (take 32 argv) m (build_user_stack argv user_stack_top m)
unfolding build_user_stack
build_user_stack-IsLayout argv m =
    let args = take 32 argv in
    let start : Stacked = record { sp = user_stack_top; mem = m } in
    let few = length-take-le 32 argv in
    let r = push_args-ArePushed args start (omega arith) (omega arith) in
    final-IsLayout args m (push_args args start).0 (push_args args start).1 few r
