-- ===== src/Pdb/WriteFile/Whole.antt =====
-- pdb_write as a whole: the bytes that it puts into the file, and the structure that it leaves.
use palm_sync_daemon.Base.{
  ℕ, ◌+◌, ◌≤◌, ◌<◌, ◌≡◌, ◌∙◌, ap, sym, refl, true, Option, none, some, List, [], ◌∷◌, ◌++◌, map,
  length, arith, ◌^◌, length-append, length-map, suc, ltb, lt→ltb, ◌==◌, if◌then◌else◌, ==_refl,
  ==_iff, Bool-cases, inl, inr,
}
use palm_sync_daemon.File.{File, Act, Io, pure, ◌>>=◌, keep, ◌&&&◌, from_option, seek_set}
use palm_sync_daemon.File.Writes.{
  Writes, put, put-nil, put-append, pure-Writes, &&&-Writes, write_all, write_all-Writes,
}
use palm_sync_daemon.File.Reads.{rewind_lem}
use palm_sync_daemon.Pdb.Types.{PdbRecord, PdbCategories, Pdb}
use palm_sync_daemon.Pdb.Time.{times_to_palm}
use palm_sync_daemon.Pdb.Fields.{write8_field, write8-Writes, write16-Writes}
use palm_sync_daemon.Pdb.Image.{
  record_list_bytes, categories_bytes, app_info_bytes, image, CategoriesFit,
  length-record_list_bytes,
}
use palm_sync_daemon.Pdb.WriteFile.{
  Opened, on_file, modify, drop_dirty, write_records, write_categories, write_app_info, write_body,
  app_info_position, fix_app_info_offset, fix_records_qty, count_records, prepare, pdb_write,
}
use palm_sync_daemon.Pdb.WriteFile.Prints.{
  write_header-Writes, write_record_list-puts, write_names-Writes, write_ids-Writes,
}

abbrev pub opened : Pdb → File → Opened
opened p f = record { pdb = p; file = f }

-- From position `at` the action `m` puts `xs` into the file, if it has room, turns the structure
-- `p` into `p'`, and gets `a`.
pub record Puts {A : Type 0} (at : ℕ) (m : Act Opened A) (p : Pdb) (xs : List ℕ) (p' : Pdb) (a : A)
    : Type 0 where
  pub run :
      (f : File)
      → f.pos ≡ at
      → at + length xs ≤ f.room
      → m (opened p f) ≡ (some a, opened p' (put xs f))

module _ {A B : Type 0} where
  bind_Puts :
      {at : ℕ} {m : Act Opened A} (k : A → Act Opened B) {p p' p'' : Pdb} {xs ys : List ℕ} {a : A}
      {b : B}
      → Puts at m p xs p' a
      → Puts (at + length xs) (k a) p' ys p'' b
      → Puts at (m >>= k) p (xs ++ ys) p'' b
  bind_Puts k {xs} {ys} d e = record {
    run = λ f same room.
        rw (d.run f same (omega (arith, length-append xs ys)), ← put-append f xs ys)
          (e.run (put xs f) (omega arith) (omega (arith, length-append xs ys)));
  }

module _ (at : ℕ) (p : Pdb) where
  on_file-Puts : {m : Io (Unit {0})} {xs : List ℕ} → Writes m xs → Puts at (on_file m) p xs p tt
  unfolding on_file
  on_file-Puts w = record { run = λ f e h. rw (w.run f (omega arith)) }

  keep-Puts :
      {m : Io (Unit {0})} {xs : List ℕ} → Writes m xs → Puts at (on_file (keep m)) p xs p (some tt)
  unfolding on_file keep
  keep-Puts w = record { run = λ f e h. rw (w.run f (omega arith)) }

  pure-Puts : Puts at (pure tt) p [] p tt
  pure-Puts = record { run = λ f e h. ap (λ g. (some tt, opened p g)) (sym (put-nil f)) }

  modify-Puts : (g : Pdb → Pdb) → Puts at (modify g) p [] (g p) tt
  unfolding modify
  modify-Puts g = record { run = λ f e h. ap (λ h'. (some tt, opened (g p) h')) (sym (put-nil f)) }

-- The structure after the records and the categories are written.
abbrev pub with_clean_records : Pdb → Pdb
with_clean_records p = record p { records = map drop_dirty p.records }

abbrev pub marked : PdbCategories → PdbCategories
marked c = record c { last_unique_id = 0x0f; padding = 0x00 }

write_records-Puts :
    (at : ℕ) (p : Pdb)
    → Puts at write_records p
        (record_list_bytes (map drop_dirty p.records))
        (with_clean_records p)
        tt
unfolding write_records
write_records-Puts at p = record {
  run = λ f e h. rw (write_record_list-puts p.records f (omega arith));
}

write_records?-Puts :
    (at : ℕ) (p : Pdb) (n : ℕ) (rs : List PdbRecord)
    → n ≡ length rs
    → Puts at
        (if ltb 0 n then write_records else pure tt)
        (record p { records = rs })
        (record_list_bytes (map drop_dirty rs))
        (record p { records = map drop_dirty rs })
        tt
write_records?-Puts at p n [] e = rw e (pure-Puts at (record p { records = [] }))
write_records?-Puts at p n (r ∷ rs) e =
    rw (e, lt→ltb 0 (suc (length rs)) (omega arith))
      (write_records-Puts at (record p { records = r ∷ rs }))

abbrev last_fields : Io (Unit {0})
last_fields =
    from_option (some tt) &&& from_option (some tt) &&& write8_field 0x0f &&& write8_field 0x00

last_fields-Writes : Writes last_fields (0x0f ∷ 0x00 ∷ [])
last_fields-Writes =
    &&&-Writes (&&&-Writes (&&&-Writes pure-Writes pure-Writes) (write8-Writes 0x0f))
      (write8-Writes 0x00)

write_categories-Puts :
    (at : ℕ) (p : Pdb) (c : PdbCategories)
    → CategoriesFit c
    → Puts at
        (write_categories c)
        p
        (categories_bytes (marked c))
        (record p { categories = some (marked c) })
        tt
unfolding write_categories
write_categories-Puts at p c fits =
    bind_Puts _ (keep-Puts _ _ (write16-Writes c.renamed_categories)) (
      bind_Puts _ (on_file-Puts _ _ (write_names-Writes c.names fits.name_len)) (
        bind_Puts _ (keep-Puts _ _ (write_ids-Writes c.ids)) (
          bind_Puts (λ _. on_file last_fields)
            (modify-Puts _ _ (λ q. record q { categories = some (marked c) }))
            (on_file-Puts _ _ last_fields-Writes))))

abbrev pub marked? : Option PdbCategories → Option PdbCategories
marked? none = none
marked? (some c) = some (marked c)

-- Where the category information goes, if there is any.
abbrev pub InfoFits : (offset qty : ℕ) → Option PdbCategories → Type 0
InfoFits offset qty none = Unit
InfoFits offset qty (some c) = (offset ≡ app_info_position qty) × CategoriesFit c

write_app_info-Puts :
    (at : ℕ) (p : Pdb) (c : Option PdbCategories)
    → at ≡ app_info_position p.records_qty
    → InfoFits p.app_info_offset p.records_qty c
    → Puts at
        (write_app_info c p.app_info_offset)
        (record p { categories = c })
        (app_info_bytes (marked? c))
        (record p { categories = marked? c })
        tt
unfolding write_app_info seek_set on_file
write_app_info-Puts at p none e i = pure-Puts at (record p { categories = none })
write_app_info-Puts at p (some c) e i = record {
  run = λ f same room.
      (let here : record f { pos = p.app_info_offset } ≡ f =
          ap (λ n. record f { pos = n }) (i.0 ∙ sym e ∙ sym same) in
        rw (==_refl p.app_info_offset, here)
          ((write_categories-Puts at (record p { categories = some c }) c i.1).run f same room));
}

-- A structure that is ready to be written.
pub record IsReady (p : Pdb) : Type 0 where
  pub dbname_len : length p.dbname ≡ 32
  pub counted : p.records_qty ≡ length p.records
  pub info_fits : InfoFits p.app_info_offset p.records_qty p.categories

-- What the structure is after it has been written.
abbrev pub written : Pdb → Pdb
written p = record p { records = map drop_dirty p.records; categories = marked? p.categories }

write_name-Writes : (xs : List ℕ) → length xs ≡ 32 → Writes (write_all xs) xs
write_name-Writes [] h = absurd (omega arith)
write_name-Writes (x ∷ xs) h = write_all-Writes x xs

write_body-Puts : (p : Pdb) → IsReady p → Puts 0 (write_body p) p (image (written p)) (written p) tt
unfolding write_body
write_body-Puts p r = bind_Puts _ (on_file-Puts _ _ (write_name-Writes p.dbname r.dbname_len)) (
    bind_Puts _ (on_file-Puts _ _ (write_header-Writes p)) (
      bind_Puts _ (write_records?-Puts _ p p.records_qty p.records r.counted) (
        bind_Puts _ (on_file-Puts _ _ (write16-Writes p.record_list_padding)) (
          write_app_info-Puts _ (with_clean_records p) p.categories
            (omega (
              arith,
              r.dbname_len,
              r.counted,
              length-record_list_bytes (map drop_dirty p.records),
              length-map p.records drop_dirty,
            ))
            r.info_fits))))

abbrev pub info_offset : Option PdbCategories → (qty old : ℕ) → ℕ
info_offset none qty old = old
info_offset (some c) qty old = app_info_position qty

-- The structure as pdb_write writes it: Palm times, the records counted, the offset of the
-- application info block right.
abbrev pub prepared : Pdb → Pdb
prepared p = record (times_to_palm p) {
  records_qty = count_records p.records;
  app_info_offset = info_offset p.categories (count_records p.records) p.app_info_offset;
}

abbrev pub saved : Pdb → Pdb
saved p = written (prepared p)

-- What the caller of pdb_write has to see to.
pub record IsWritable (p : Pdb) : Type 0 where
  pub dbname_len : length p.dbname ≡ 32
  pub next_is_zero : p.next_record_list_offset ≡ 0
  pub few_records : length p.records < 2 ^ 16
  pub categories_fit : (c : PdbCategories) → p.categories ≡ some c → CategoriesFit c

prepared-IsReady : (p : Pdb) → IsWritable p → IsReady (prepared p)
prepared-IsReady p w = record {
  dbname_len = w.dbname_len;
  counted = omega (arith, w.few_records);
  info_fits = placed p.categories w.categories_fit;
}
  where
    placed :
        (c : Option PdbCategories)
        → ((c' : PdbCategories) → c ≡ some c' → CategoriesFit c')
        → let qty = count_records p.records in InfoFits (info_offset c qty p.app_info_offset) qty c
    placed none fits = tt
    placed (some c) fits = (refl, fits c refl)

fix_records_qty_lem :
    (p : Pdb) → fix_records_qty p ≡ record p { records_qty = count_records p.records }
unfolding fix_records_qty
fix_records_qty_lem p = elim (Bool-cases (count_records p.records == p.records_qty)) [
  | inl same ↦ rw same (ap (λ n. record p { records_qty = n }) (sym ((==_iff _ _).0 same)))
  | inr other ↦ rw other
]

fix_app_info_offset_lem :
    (p : Pdb) (c : Option PdbCategories)
    → fix_app_info_offset (record p { categories = c })
      ≡ record p { app_info_offset = info_offset c p.records_qty p.app_info_offset; categories = c }
unfolding fix_app_info_offset
fix_app_info_offset_lem p none = refl
fix_app_info_offset_lem p (some c) =
    elim (Bool-cases (app_info_position p.records_qty == p.app_info_offset)) [
      | inl same ↦ rw same (
          ap (λ n. record p { app_info_offset = n; categories = some c })
            (sym ((==_iff _ _).0 same)))
      | inr other ↦ rw other
    ]

prepare_lem :
    (p : Pdb) (f : File)
    → p.next_record_list_offset ≡ 0
    → prepare (opened p f) ≡ (some (prepared p), opened (prepared p) f)
unfolding prepare
prepare_lem p f e =
    let zero_next : (p.next_record_list_offset == 0) ≡ true = (==_iff _ _).1 e in
    let counted = record (times_to_palm p) { records_qty = count_records p.records } in
    rw (
      zero_next,
      fix_records_qty_lem (times_to_palm p),
      fix_app_info_offset_lem counted p.categories,
    )

at_start : (n m : ℕ) → n ≤ m → 0 + n ≤ m
at_start n m h = omega arith

-- If the name has 32 bytes, the next record list offset is 0, there are fewer than 65536 records,
-- the categories have the sizes of the C arrays and the file has room, pdb_write succeeds, puts
-- exactly the bytes of the PDB format at the start of the file, and leaves the structure that
-- these bytes are the image of.
pub pdb_write-image :
    (p : Pdb) (f : File)
    → IsWritable p
    → length (image (saved p)) ≤ f.room
    → pdb_write (opened p f)
      ≡ (some tt, opened (saved p) (put (image (saved p)) (record f { pos = 0 })))
unfolding pdb_write on_file seek_set
pdb_write-image p f w room =
    rw (rewind_lem f, prepare_lem p (record f { pos = 0 }) w.next_is_zero)
      ((write_body-Puts (prepared p) (prepared-IsReady p w)).run (record f { pos = 0 }) refl
        (at_start _ _ room))
