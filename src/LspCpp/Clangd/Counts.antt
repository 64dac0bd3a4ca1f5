-- ===== src/LspCpp/Clangd/Counts.antt =====
-- `build_full_index` looks at every translation unit within its limit once.
use mcp_tools.Prelude.{
  ℕ, zero, suc, ◌+◌, ◌≤◌, ◌≡◌, refl, ap, min, Bool, true, false, Bool-cases, Option-cases, inl, inr,
  List, [], ◌∷◌, arith, length, length-take, length-drop, take, drop, Str,
}
use mcp_tools.Prelude.Json.{Json, as_array}
use mcp_tools.Prelude.Result.{Result, ok, err, Result-cases}
use mcp_tools.Prelude.Action.{Action, behind}
use mcp_tools.LspCpp.Error.{ShimError, IoError}
use mcp_tools.LspCpp.Clangd.{Os, Machine}
use mcp_tools.LspCpp.Clangd.Index.{
  Progress, Disk, needs_stdin, read_compile_commands, build_full_index, refuse_full, fresh,
  close_all, open_one, open_chunk, open_batch, open_batches, build_full_index_batch,
}
use mcp_tools.LspCpp.Backend.{BuildFullIndexReport}
use mcp_tools.LspCpp.Clangd.Launch.{pick_compile_commands_path}
use mcp_tools.LspCpp.Clangd.Spawn.{ensure_spawned}

abbrev looked_at : Progress → ℕ
looked_at p = p.tus_opened + p.skipped_io_errors

total_of : Result BuildFullIndexReport ShimError → ℕ
total_of (ok report) = report.tus_opened + report.skipped_io_errors
total_of (err e) = 0

behind-needs_stdin :
    {W B : Type 0} (there : Bool) (f : Unit {0} → Action W ShimError B) (w : W) (b : B)
    → (behind (needs_stdin there) f w).0 ≡ ok b
    → (f tt w).0 ≡ ok b
behind-needs_stdin true f w b h = h
behind-needs_stdin false f w b h = absurd cc

module _ {W : Type 0} (os : Os W) (disk : Disk W) where
  open_one-looked_at :
      (path : Str) (read : Result Str IoError) (p q : Progress) (m : Machine W)
      → (open_one os disk path read p m).0 ≡ ok q
      → looked_at q ≡ looked_at p + 1
  unfolding open_one
  open_one-looked_at path (err e) p q m h = ground arith
  open_one-looked_at path (ok contents) p q m h = ground arith

  open_chunk-looked_at :
      (chunk : List Str) (p q : Progress) (m : Machine W)
      → (open_chunk os disk chunk p m).0 ≡ ok q
      → looked_at q ≡ looked_at p + length chunk
  unfolding open_chunk
  open_chunk-looked_at [] p q m h = ground arith
  open_chunk-looked_at (path ∷ rest) p q m h =
      elim (Result-cases (open_one os disk path (os.read_to_string m.world path) p m).0) [
        | inl (p₁, e) ↦
            let one = open_one-looked_at path (os.read_to_string m.world path) p p₁ m e in
            let rest' =
              open_chunk-looked_at rest p₁ q
                (open_one os disk path (os.read_to_string m.world path) p m).1 (rw e at h) in
            omega (arith, one, rest')
        | inr (failure, e) ↦ absurd (let g = rw e at h in cc)
      ]

  open_batch-looked_at :
      (chunk : List Str) (p q : Progress) (m : Machine W)
      → (open_batch os disk chunk p m).0 ≡ ok q
      → looked_at q ≡ looked_at p + length chunk
  unfolding open_batch
  open_batch-looked_at chunk p q m h =
      let closed : Machine W = close_all os disk p.open_uris m in
      let none_open : Progress = record p { open_uris = [] } in
      let g = behind-needs_stdin m.clangd.stdin _ m q h in
      elim (Result-cases (open_chunk os disk chunk none_open closed).0) [
        | inl (p₁, e) ↦
            let chunk' = open_chunk-looked_at chunk none_open p₁ closed e in
            let same = rw e at g in ground arith
        | inr (failure, e) ↦ absurd (let same = rw e at g in cc)
      ]

  open_batches-looked_at :
      (rounds : ℕ) (entries : List Str) (p q : Progress) (m : Machine W)
      → length entries ≤ rounds
      → (open_batches os disk rounds entries p m).0 ≡ ok q
      → looked_at q ≡ looked_at p + length entries
  unfolding open_batches
  open_batches-looked_at zero [] p q m l h = ground arith
  open_batches-looked_at zero (entry ∷ rest) p q m l h = absurd (ground arith)
  open_batches-looked_at (suc rounds) [] p q m l h = ground arith
  open_batches-looked_at (suc rounds) (entry ∷ rest) p q m l h =
      let chunk : List Str = take build_full_index_batch (entry ∷ rest) in
      let later : List Str = drop build_full_index_batch (entry ∷ rest) in
      elim (Result-cases (open_batch os disk chunk p m).0) [
        | inl (p₁, e) ↦
            let ih =
              open_batches-looked_at rounds later p₁ q (open_batch os disk chunk p m).1
                (omega (arith, l, length-drop build_full_index_batch (entry ∷ rest))) (rw e at h) in
            omega (
              arith,
              ih,
              open_batch-looked_at chunk p p₁ m e,
              length-take build_full_index_batch (entry ∷ rest),
              length-drop build_full_index_batch (entry ∷ rest),
            )
        | inr (failure, e) ↦ absurd (let g = rw e at h in cc)
      ]

  read_compile_commands-world :
      (path : Str) (m : Machine W) → (read_compile_commands os disk path m).1 ≡ m
  unfolding read_compile_commands
  read_compile_commands-world path m = elim (Result-cases (disk.read m.world path)) [
    | inr (e, missing) ↦ rw missing refl
    | inl (bytes, present) ↦ rw present (elim (Result-cases (disk.from_slice bytes)) [
      | inr (e, bad) ↦ rw bad refl
      | inl (value, good) ↦ rw good (elim (Option-cases (as_array value)) [
        | inl none' ↦ rw none' refl
        | inr (arr, some') ↦ rw some' refl
      ])
    ])
  ]

  module _ (show : Json → Str) (process_id : ℕ) where
    -- A report of `build_full_index` accounts for every translation unit within the limit: those opened
    -- and those skipped are together the smaller of `max_tus` and the number of files that the list of
    -- compile commands names. The list is read behind `ensure_spawned`.
    pub build_full_index-accounts :
        (max_tus : ℕ) (m : Machine W) (cdb_path : Str) (entries : List Str)
        (report : BuildFullIndexReport)
        → (ensure_spawned os show process_id m).0 ≡ ok tt
        → pick_compile_commands_path os
            (ensure_spawned os show process_id m).1.world
            (ensure_spawned os show process_id m).1.clangd.project_root
          ≡ ok cdb_path
        → (read_compile_commands os disk cdb_path (ensure_spawned os show process_id m).1).0
          ≡ ok entries
        → (build_full_index os disk show process_id max_tus m).0 ≡ ok report
        → report.tus_opened + report.skipped_io_errors ≡ min max_tus (length entries)
    unfolding build_full_index total_of
    build_full_index-accounts max_tus m cdb_path entries report spawned picked read h =
        elim (Result-cases (refuse_full os disk m.clangd.index_mode)) [
          | inr (e, refused) ↦ absurd (let g = rw refused at h in cc)
          | inl (u, allowed) ↦
              let m₁ = (ensure_spawned os show process_id m).1 in
              let same = read_compile_commands-world cdb_path m₁ in
              let g = rw (allowed, spawned, picked, read, same) at h in
              elim (Result-cases
                (open_batches os disk (length entries) (take (min max_tus (length entries)) entries)
                  (fresh os disk) m₁).0) [
                    | inr (e, failed) ↦ absurd (let g' = rw failed at g in cc)
                    | inl (p, done) ↦
                        let counted =
                          open_batches-looked_at (length entries)
                            (take (min max_tus (length entries)) entries) (fresh os disk) p m₁
                            (omega (arith, length-take (min max_tus (length entries)) entries))
                            done in
                        let g' = rw done at g in
                        elim (Bool-cases
                          (open_batches os disk (length entries)
                            (take (min max_tus (length entries)) entries) (fresh os disk)
                            m₁).1.clangd.stdin) [
                              | inr gone ↦ absurd (let g'' = rw gone at g' in cc)
                              | inl there ↦
                                  let total : looked_at p
                                      ≡ report.tus_opened + report.skipped_io_errors =
                                    ap total_of (rw there at g') in
                                  omega (
                                    arith,
                                    counted,
                                    total,
                                    length-take (min max_tus (length entries)) entries,
                                  )
                            ]
                  ]
        ]
