-- ===== src/Snapstore/Saving.antt =====
-- internal/snapstore/snapstore.go: `saveOneTo`, the files a dump leaves.
use w17ctl.Base.{
  Str, str_eq_iff, Bool, true, false, not, ◌&&◌, Option, none, some, List, [], ◌∷◌, ◌≡◌, refl, ◌≢◌,
  ◌⊎◌, inl, inr, if◌then◌else◌, arith,
}
use w17ctl.Base.Assoc.{get, put, delete, get-put, get-delete}
use w17ctl.Snapstore.{
  Conn, Os, Dir, SaveError, file, concat, saw_object, store_objects, refusal, judged, save_error,
  remove, settle, save_one_to, written,
}

module _ (os : Os) (c : Conn) where
  refusal-none :
      refusal c ≡ none
      → c.require_objects ≡ true
      → (saw_object c.chunks ≡ true) ⊎ (store_objects c.counter ≡ some [])
  unfolding refusal
  refusal-none h r = split (saw_object c.chunks) (store_objects c.counter) refl refl h
    where
      split :
          (b : Bool) (o : Option (List Str))
          → saw_object c.chunks ≡ b
          → store_objects c.counter ≡ o
          → (if c.require_objects && not b then judged o else none) ≡ none
          → (saw_object c.chunks ≡ true) ⊎ (store_objects c.counter ≡ some [])
      split true o e f k = inl e
      split false none e f k = absurd (ground arith)
      split false (some []) e f k = inr f
      split false (some (x ∷ xs)) e f k = absurd (ground arith)

  save_error-none : save_error os c ≡ none → (c.dump_error ≡ none) × (refusal c ≡ none)
  unfolding save_error
  save_error-none h = ground arith

  -- The set's directory after one dump. Whatever fails, no file but the temporary one differs from
  -- before. Without an error the dump's file holds all that the store wrote, and no file but it and
  -- the temporary one differs from before.
  abbrev pub IsWritten : Dir → Dir × Option SaveError → Type 0
  IsWritten d (after, some e) = (k : Str) → k ≢ os.temp_name (file c) → get after k ≡ get d k
  IsWritten d (after, none) =
      (get after (file c) ≡ some (concat c.chunks))
      × ((k : Str) → k ≢ os.temp_name (file c) → k ≢ file c → get after k ≡ get d k)

  settle-IsWritten :
      (d : Dir) (e : Option SaveError)
      → IsWritten d (settle os c (put d (os.temp_name (file c)) (concat c.chunks)) e)
  unfolding settle remove
  settle-IsWritten d (some e) = λ k ne.
      let t = os.temp_name (file c) in
      let d' = put d t (concat c.chunks) in
      ground (arith, get-put d t k (concat c.chunks), get-delete d' t k, str_eq_iff t k)
  settle-IsWritten d none =
      let t = os.temp_name (file c) in
      let b = concat c.chunks in
      let d' = put d t b in
      (
        ground (arith, get-put (delete d' t) (file c) (file c) b, str_eq_iff (file c) (file c)),
        λ k ne nf. ground (
          arith,
          get-put (delete d' t) (file c) k b,
          get-delete d' t k,
          get-put d t k b,
          str_eq_iff t k,
          str_eq_iff (file c) k,
        ),
      )

  written-IsWritten : (d : Dir) (o : Option Str) → IsWritten d (written os c d o)
  unfolding written
  written-IsWritten d (some e) = λ k ne. refl
  written-IsWritten d none = settle-IsWritten d (save_error os c)

  -- A failed dump never touches the snapshot a later load would trust: after an error every file but
  -- the temporary one is as it was. After a success the connection's file holds exactly what its
  -- store wrote, and the other files are as they were.
  pub save_one_to-IsWritten : (d : Dir) → IsWritten d (save_one_to os c d)
  unfolding save_one_to
  save_one_to-IsWritten d = written-IsWritten d (os.temp_error (file c))

  settled_none : (d : Dir) (e : Option SaveError) → (settle os c d e).1 ≡ none → e ≡ none
  unfolding settle
  settled_none d (some e) h = h
  settled_none d none h = refl

  written-none : (d : Dir) (o : Option Str) → (written os c d o).1 ≡ none → save_error os c ≡ none
  unfolding written
  written-none d (some e) h = absurd (ground arith)
  written-none d none h =
      settled_none (put d (os.temp_name (file c)) (concat c.chunks)) (save_error os c) h

  -- A connection that requires objects is saved without an error only where its dump creates one, or
  -- where its store was asked and holds none.
  pub save_one_to_requires :
      (d : Dir)
      → c.require_objects ≡ true
      → (save_one_to os c d).1 ≡ none
      → (saw_object c.chunks ≡ true) ⊎ (store_objects c.counter ≡ some [])
  unfolding save_one_to
  save_one_to_requires d r h =
      refusal-none (save_error-none (written-none d (os.temp_error (file c)) h)).1 r
