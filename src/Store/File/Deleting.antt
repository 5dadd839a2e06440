-- ===== src/Store/File/Deleting.antt =====
-- Delete of store/file.go against that of store/memory.go.
use gotato.Base.{
  Option, none, some, List, Bytes, delete, nat_eq, bytes_eq, bytes_beq_iff, ◌===◌, lookup-delete,
  ◌≡◌, inl, inr, refl, arith, Bool-cases, Option-cases,
}
use gotato.Store.Id.{StoreError, not_found, check_id}
use gotato.Store.File.{Disk, FileStore}
use gotato.Store.File.Name.{name_of}
use gotato.Store.File.Name.Valid.{other_name}
use gotato.Store.File.Calls.{file_delete}
use gotato.Store.File.Shows.{Shows, delete-Good}
use gotato.Store.Memory.{MemoryStore, delete_record}
use gotato.Store.File.Agree.{
  IsShort, check_file_id-IsShort, Agree, Agree-by, Agree-still, ShowsAt-other,
}

module _ (hash : Bytes → Bytes) where
  removed-Shows :
      (id : Bytes) (disk : Disk) (m : MemoryStore)
      → check_id id ≡ none
      → Shows hash disk m
      → Shows hash (delete (name_of id) disk) (record m { records = delete id m.records })
  removed-Shows id disk m named s k hk = elim (Bool-cases (id === k)) [
    | inl same ↦ inl (
      ground (arith, lookup-delete id k m.records),
      ground (
        arith,
        bytes_beq_iff id k,
        bytes_beq_iff (name_of id) (name_of k),
        lookup-delete (name_of id) (name_of k) disk,
      ),
    )
    | inr other ↦
        ShowsAt-other hash disk _ m (record m { records = delete id m.records }) k
          (ground
            (arith, other_name id k named hk other, lookup-delete (name_of id) (name_of k) disk))
          (ground (arith, lookup-delete id k m.records)) (s k hk)
  ]

  -- A delete through a handle gives the result of the MemoryStore's.
  pub delete-Agree :
      (used : List Bytes) (ctx : Option StoreError) (id : Bytes) (f : FileStore) (m : MemoryStore)
      → IsShort id
      → Shows hash f.disk m
      → Agree hash used used f (file_delete ctx id f) (delete_record ctx id m)
  unfolding file_delete delete_record
  delete-Agree used (some e) id f m short s = Agree-still hash used used f m (some e) s
  delete-Agree used none id f m short s = elim (Option-cases (check_id id)) [
    | inr (e, h) ↦
        Agree-by hash (ground (arith, check_file_id-IsShort id short)) (ground arith)
          (Agree-still hash used used f m (some e) s)
    | inl h ↦ elim (s id h) [
      | inl (gone, no_dir) ↦
          Agree-by hash {G = (record f { heads = delete id f.heads }, some not_found)}
            {N = (m, some not_found)} (ground (arith, no_dir, check_file_id-IsShort id short))
            (ground (arith, gone))
            (record {
              result = refl;
              shows = s;
              keeps = λ c known g. g;
              caches = λ k c e. inl (ground (arith, lookup-delete id k f.heads));
            })
      | inr (r, there, k) ↦
          Agree-by hash
            {G = (record { disk = delete (name_of id) f.disk; heads = delete id f.heads }, none)}
            {N = (record m { records = delete id m.records }, none)}
            (ground (arith, k.stored, check_file_id-IsShort id short)) (ground (arith, there))
            (record {
              result = refl;
              shows = removed-Shows id f.disk m h s;
              keeps = λ c known g. delete-Good c (name_of id) f.disk g;
              caches = λ k c e. inl (ground (arith, lookup-delete id k f.heads));
            })
    ]
  ]
