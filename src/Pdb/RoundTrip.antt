-- ===== src/Pdb/RoundTrip.antt =====
-- pdb_read after pdb_write.
use palm_sync_daemon.Base.{
  ℕ, ◌+◌, ◌≤◌, ◌<◌, ◌≡◌, ◌∙◌, ap, refl, Bool, true, false, Option, none, some, List, [], ◌∷◌, ◌++◌,
  map, length, All, arith, ◌^◌, length-map, ltb, if◌then◌else◌, ◌==◌, ◌&&◌, not,
}
use palm_sync_daemon.Base.Bits.{without_64}
use palm_sync_daemon.File.{File, overwrite-zero}
use palm_sync_daemon.Pdb.Types.{Ptr, PdbRecord, PdbCategories, Pdb}
use palm_sync_daemon.Pdb.Time.{
  pdb_mac_unix_epoch_start_diff, time_unix_to_palm, palm_to_unix-unix_to_palm,
}
use palm_sync_daemon.Pdb.Image.{image, CategoriesFit, PdbFits, RecordFits}
use palm_sync_daemon.Pdb.ReadFile.{pdb_read}
use palm_sync_daemon.Pdb.ReadFile.Whole.{
  loaded, pruned, IsSaved, InfoIs, pdb_read-loaded, pruned-InfoPruned,
}
use palm_sync_daemon.Pdb.ReadFile.Garbage.{InfoPruned}
use palm_sync_daemon.Pdb.ReadFile.Keeps.{pdb_read-Keeps}
use palm_sync_daemon.Pdb.ReadFile.Parses.{fresh_from}
use palm_sync_daemon.Pdb.WriteFile.{drop_dirty, count_records, pdb_write}
use palm_sync_daemon.Pdb.WriteFile.Whole.{
  opened, saved, marked?, info_offset, IsWritable, pdb_write-image,
}

-- The caller asks for the category information exactly if the structure has some.
abbrev pub InfoAsked : Bool → Pdb → Option PdbCategories → Type 0
InfoAsked std p none = (not (p.app_info_offset == 0) && std) ≡ false
InfoAsked std p (some c) = std ≡ true

drop_dirty-Fits : (rs : List PdbRecord) → All RecordFits rs → All RecordFits (map drop_dirty rs)
drop_dirty-Fits [] h = tt
drop_dirty-Fits (r ∷ rs) h = (
  record {
    offset_fits = h.0.offset_fits;
    attributes_fit = omega (arith, without_64 r.attributes h.0.attributes_fit);
  },
  drop_dirty-Fits rs h.1,
)

palm_time_fits : (t : ℕ) → time_unix_to_palm t < 2 ^ 32
unfolding time_unix_to_palm
palm_time_fits t = omega arith

info_offset_fits :
    (c : Option PdbCategories) (qty old : ℕ)
    → qty < 2 ^ 16
    → old < 2 ^ 32
    → info_offset c qty old < 2 ^ 32
info_offset_fits none qty old h k = k
info_offset_fits (some c) qty old h k = omega arith

saved-IsSaved : (p : Pdb) → PdbFits p → IsWritable p → IsSaved (saved p)
saved-IsSaved p fits w = record {
  fits = record {
    dbname_len = w.dbname_len;
    attributes_fit = fits.attributes_fit;
    version_fits = fits.version_fits;
    ctime_fits = palm_time_fits p.ctime;
    mtime_fits = palm_time_fits p.mtime;
    btime_fits = palm_time_fits p.btime;
    number_fits = fits.number_fits;
    app_fits = info_offset_fits p.categories _ _ (omega arith) fits.app_fits;
    sort_fits = fits.sort_fits;
    type_fits = fits.type_fits;
    creator_fits = fits.creator_fits;
    seed_fits = fits.seed_fits;
    next_fits = fits.next_fits;
    qty_fits = omega arith;
    records_fit = drop_dirty-Fits p.records fits.records_fit;
    padding_fits = fits.padding_fits;
  };
  counted = omega (arith, w.few_records, length-map p.records drop_dirty);
  next_is_zero = w.next_is_zero;
}

saved_info :
    (std : Bool) (p : Pdb) (c : Option PdbCategories)
    → ((c' : PdbCategories) → c ≡ some c' → CategoriesFit c')
    → InfoAsked std p c
    → InfoIs std
        (record (saved p) {
          app_info_offset = info_offset c (count_records p.records) p.app_info_offset;
        })
        (marked? c)
saved_info std p none fits i = i
saved_info std p (some c) fits i =
    let fit = fits c refl in
    (
      ground arith,
      refl,
      record {
        renamed_fits = fit.renamed_fits;
        names_len = fit.names_len;
        name_len = fit.name_len;
        ids_len = fit.ids_len;
      },
      refl,
    )

-- A Unix time, if it lies in the range of a Palm time; 0 if it does not.
abbrev pub clipped : ℕ → ℕ
clipped t = if ltb (t + pdb_mac_unix_epoch_start_diff) (2 ^ 32) then t else 0

-- The structure that comes back from the file.
abbrev pub reread : (ℕ → Ptr) → Pdb → Pdb
reread at p = record p {
  ctime = clipped p.ctime;
  mtime = clipped p.mtime;
  btime = clipped p.btime;
  app_info_offset = info_offset p.categories (length p.records) p.app_info_offset;
  records_qty = length p.records;
  records = fresh_from at 1 (map drop_dirty p.records);
  record_list_padding = 0;
  categories = pruned (marked? p.categories);
}

reread_lem : (at : ℕ → Ptr) (p : Pdb) → PdbFits p → IsWritable p → loaded at (saved p) ≡ reread at p
reread_lem at p fits w =
    let qty : count_records p.records ≡ length p.records = omega (arith, w.few_records) in
    rw (
      palm_to_unix-unix_to_palm p.ctime fits.ctime_fits,
      palm_to_unix-unix_to_palm p.mtime fits.mtime_fits,
      palm_to_unix-unix_to_palm p.btime fits.btime_fits,
      qty,
    )

module _ {calloc : ℕ → Option Ptr} {at : ℕ → Ptr} (works : (i : ℕ) → calloc i ≡ some (at i)) where
  -- On a file that begins with the image, whatever is behind it, and the file stays as it is.
  pub pdb_read-saved :
      (std : Bool) (p : Pdb) (f : File) (rest : List ℕ)
      → PdbFits p
      → IsWritable p
      → InfoAsked std p p.categories
      → f.readable ≡ true
      → f.bytes ≡ image (saved p) ++ rest
      → (k : ℕ) × (pdb_read calloc std f ≡ (some (reread at p), record f { pos = k }))
  pdb_read-saved std p f rest fits w i r h =
      let (k, kept) = (pdb_read-Keeps calloc std).run f in
      let got =
        pdb_read-loaded works std (saved p) f rest (saved-IsSaved p fits w)
          (saved_info std p p.categories w.categories_fit i) r h
        ∙ ap some (reread_lem at p fits w) in
      (k, λ j. (got j, kept j))

  -- pdb_read on the file that pdb_write has written gives the structure back, if the fields fit,
  -- the file has room, every allocation succeeds and the category information is asked for exactly
  -- if there is some: records are new objects without dirty flag and data pointer, the count and
  -- the offset of the application info are set right, and times outside the Palm range are 0. The
  -- category information is the written one (last unique ID 15, padding 0) with the garbage
  -- entries behind the last entry that is none removed: their IDs are 0 and their names blanked,
  -- the index of that last entry becomes the last unique ID, and all else stays.
  pub pdb_read-pdb_write :
      (std : Bool) (p : Pdb) (f : File)
      → PdbFits p
      → IsWritable p
      → InfoAsked std p p.categories
      → f.readable ≡ true
      → length (image (saved p)) ≤ f.room
      → let s = (pdb_write (opened p f)).1 in
        ((pdb_read calloc std s.file).0 ≡ some (reread at p))
        × InfoPruned (marked? p.categories) (reread at p).categories
  pdb_read-pdb_write std p f fits w i r room =
      let info = saved_info std p p.categories w.categories_fit i in
      (
        rw (pdb_write-image p f w room) (
            rw (← reread_lem at p fits w) (
              pdb_read-loaded works std (saved p) _ _ (saved-IsSaved p fits w) info r
                (overwrite-zero (image (saved p)) f.bytes))),
        pruned-InfoPruned std
            (record (saved p) {
              app_info_offset =
                  info_offset p.categories (count_records p.records) p.app_info_offset;
            })
            (marked? p.categories) info,
      )
