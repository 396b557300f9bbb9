-- ===== src/Fs/Fat16/Browse/Listed.antt =====
-- `fat16_list_dir` stays within its buffer.
use astra_os.Base.{
  ℕ, zero, suc, ◌+◌, ◌-◌, ◌≡◌, ◌≤◌, ◌<◌, inl, inr, arith, Bool, true, false, ◌==◌, leb, Bool-cases,
  List, [], ◌∷◌, ◌++◌, length, length-append, Option, none, some, done, Ends, Ends-bind, Ends-any,
  Ends-done,
}
use astra_os.Fs.Fat16.Layout.{Disk, Fs, entry_at, attr, ata_read_sector}
use astra_os.Fs.Fat16.Name.{fat16_entry_to_name}
use astra_os.Fs.Fat16.Path.{fat16_normalize_path}
use astra_os.Fs.Fat16.Dir.{Flow, next, ret, walk_dir, fat16_resolve_absolute}
use astra_os.Fs.Fat16.Dir.Walk.{Keeps, AtEntries, walk_dir-Keeps}
use astra_os.Fs.Fat16.Browse.{
  Listing, append_line, list_visit, gathered, begun, list_cluster, fat16_list_dir,
}

-- The counted bytes leave room for two more, or there are none; a NUL behind them is in the buffer.
pub record Fits (out_size : ℕ) (out : Listing) : Type 0 where
  pub room : length out.0 ≤ out_size - 2
  pub nul_inside : out.1 ≡ true → length out.0 < out_size

append_line-Fits :
    (out_size : ℕ) (name : List ℕ) (out : Listing)
    → Fits out_size out
    → Fits out_size (append_line out_size name out).0
unfolding append_line
append_line-Fits out_size [] (out, nul) f = elim (Bool-cases (leb out_size (length out + 2))) [
  | inl full ↦ rw full f
  | inr room ↦ rw room (record {
    room = ground (arith, length-append out (10 ∷ []));
    nul_inside = λ _. ground (arith, length-append out (10 ∷ []));
  })
]
append_line-Fits out_size (c ∷ name) (out, nul) f =
    elim (Bool-cases (leb out_size (length out + 2))) [
      | inl full ↦ rw full f
      | inr room ↦ rw room (
          append_line-Fits out_size name (out ++ c ∷ [], false)
            (record { room = ground (arith, length-append out (c ∷ [])); nul_inside = λ no. cc }))
    ]

list_visit-Fits :
    (d : Disk) (out_size : ℕ) → AtEntries (list_visit out_size) (Fits out_size) (Fits out_size) d
unfolding list_visit
list_visit-Fits d out_size lba off out inside f =
    let e = entry_at (ata_read_sector d lba) off in
    let line = append_line-Fits out_size (fat16_entry_to_name e) out f in
    elim (Bool-cases (e 0 == 0x00)) [
      | inl last ↦ rw last f
      | inr used ↦ elim (Bool-cases (e 0 == 0xE5)) [
        | inl deleted ↦ rw (used, deleted) f
        | inr live ↦ elim (Bool-cases (attr e == 0x0F)) [
          | inl long ↦ rw (used, live, long) f
          | inr short ↦ elim (Bool-cases (append_line out_size (fat16_entry_to_name e) out).1) [
            | inl complete ↦ rw (used, live, short, complete) line
            | inr cut ↦ rw (used, live, short, cut) line
          ]
        ]
      ]
    ]

gathered-Fits :
    (out_size : ℕ) (flow : Flow Listing Listing)
    → Keeps (Fits out_size) (Fits out_size) flow
    → Fits out_size (gathered flow)
gathered-Fits out_size (next a) k = k
gathered-Fits out_size (ret r) k = k

begun-Fits : (room : ℕ) → Fits (suc room) begun
begun-Fits room = record { room = omega arith; nul_inside = λ _. omega arith }

list_dir-Ends :
    (fuel : ℕ) (s : Fs) (path : List ℕ) (out_size : ℕ)
    → Ends (λ r. Fits out_size r.1) (fat16_list_dir fuel s path out_size)
unfolding fat16_list_dir list_cluster
list_dir-Ends fuel s path zero = record { room = omega arith; nul_inside = λ no. cc }
list_dir-Ends fuel s [] (suc room) = begun-Fits room
list_dir-Ends fuel s (c ∷ path) (suc room) =
    let normal = fat16_normalize_path s.current_path (c ∷ path) in
    Ends-bind (λ _. Unit) FitsReply normal _ (Ends-any normal)
      λ abs _ _.
        let resolved = fat16_resolve_absolute fuel s.bpb s.disk abs in
        Ends-bind (λ _. Unit) FitsReply resolved _ (Ends-any resolved) λ o _ _. dirs o
  where
    FitsReply : Bool × Listing → Type 0
    FitsReply r = Fits (suc room) r.1

    dirs : (o : Option ℕ) → Ends FitsReply (list_cluster fuel s (suc room) o)
    dirs none = begun-Fits room
    dirs (some dir) =
        Ends-bind (Keeps (Fits (suc room)) (Fits (suc room))) FitsReply
          (walk_dir (list_visit (suc room)) fuel s.bpb s.disk dir begun) _
          (walk_dir-Keeps (list_visit (suc room)) (Fits (suc room)) (Fits (suc room)) s.disk
            (list_visit-Fits s.disk (suc room)) fuel s.bpb dir begun (begun-Fits room))
          λ flow _ k. gathered-Fits (suc room) flow k

-- Whether it fails or lists a directory, `fat16_list_dir` stays in its buffer of `out_size` bytes:
-- the bytes that it counts are at most two fewer, or none, and a NUL that stands behind them at its
-- end, the one that it begins with included, is in the buffer too.
pub list_dir-Fits :
    (fuel : ℕ) (s : Fs) (path : List ℕ) (out_size : ℕ) (listed : Bool) (out : Listing)
    → fat16_list_dir fuel s path out_size ≡ done (listed, out)
    → Fits out_size out
list_dir-Fits fuel s path out_size listed out h =
    Ends-done (λ (r : Bool × Listing). Fits out_size r.1) (fat16_list_dir fuel s path out_size)
      (listed, out) (list_dir-Ends fuel s path out_size) h
