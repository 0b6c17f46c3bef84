-- ===== src/Pdb/Image.antt =====
-- The bytes of a PDB file: the header, the record list, two bytes of padding, and the standard
-- category information where there is any. This is the reference for pdb_read and pdb_write.
use palm_sync_daemon.Base.{
  ℕ, ◌*◌, ◌^◌, ◌<◌, ◌≡◌, Option, none, some, List, [], ◌∷◌, ◌++◌, length, length-append, All, arith,
}
use palm_sync_daemon.Pdb.Types.{PdbRecord, PdbCategories, Pdb}
use palm_sync_daemon.Pdb.Fields.{bytes16, bytes32}

abbrev pub header_bytes : Pdb → List ℕ
header_bytes p =
    bytes16 p.attributes
    ++ bytes16 p.version
    ++ bytes32 p.ctime
    ++ bytes32 p.mtime
    ++ bytes32 p.btime
    ++ bytes32 p.modification_number
    ++ bytes32 p.app_info_offset
    ++ bytes32 p.sort_info_offset
    ++ bytes32 p.database_type_id
    ++ bytes32 p.creator_id
    ++ bytes32 p.seed
    ++ bytes32 p.next_record_list_offset
    ++ bytes16 p.records_qty

abbrev pub record_bytes : PdbRecord → List ℕ
record_bytes r = bytes32 r.offset ++ (r.attributes ∷ r.id0 ∷ r.id1 ∷ r.id2 ∷ [])

abbrev pub record_list_bytes : List PdbRecord → List ℕ
record_list_bytes [] = []
record_list_bytes (r ∷ rs) = record_bytes r ++ record_list_bytes rs

abbrev pub names_bytes : List (List ℕ) → List ℕ
names_bytes [] = []
names_bytes (name ∷ names) = name ++ names_bytes names

abbrev pub categories_bytes : PdbCategories → List ℕ
categories_bytes c =
    bytes16 c.renamed_categories
    ++ (names_bytes c.names ++ (c.ids ++ (c.last_unique_id ∷ c.padding ∷ [])))

abbrev pub app_info_bytes : Option PdbCategories → List ℕ
app_info_bytes none = []
app_info_bytes (some c) = categories_bytes c

abbrev pub image : Pdb → List ℕ
image p =
    p.dbname
    ++ (header_bytes p
        ++ (record_list_bytes p.records
            ++ (bytes16 p.record_list_padding ++ app_info_bytes p.categories)))

-- The widths of the C types and the lengths of the C arrays.
pub record RecordFits (r : PdbRecord) : Type 0 where
  pub offset_fits : r.offset < 2 ^ 32
  pub attributes_fit : r.attributes < 256

pub record CategoriesFit (c : PdbCategories) : Type 0 where
  pub renamed_fits : c.renamed_categories < 2 ^ 16
  pub names_len : length c.names ≡ 16
  pub name_len : All (λ name. length name ≡ 16) c.names
  pub ids_len : length c.ids ≡ 16

pub record PdbFits (p : Pdb) : Type 0 where
  pub dbname_len : length p.dbname ≡ 32
  pub attributes_fit : p.attributes < 2 ^ 16
  pub version_fits : p.version < 2 ^ 16
  pub ctime_fits : p.ctime < 2 ^ 32
  pub mtime_fits : p.mtime < 2 ^ 32
  pub btime_fits : p.btime < 2 ^ 32
  pub number_fits : p.modification_number < 2 ^ 32
  pub app_fits : p.app_info_offset < 2 ^ 32
  pub sort_fits : p.sort_info_offset < 2 ^ 32
  pub type_fits : p.database_type_id < 2 ^ 32
  pub creator_fits : p.creator_id < 2 ^ 32
  pub seed_fits : p.seed < 2 ^ 32
  pub next_fits : p.next_record_list_offset < 2 ^ 32
  pub qty_fits : p.records_qty < 2 ^ 16
  pub records_fit : All RecordFits p.records
  pub padding_fits : p.record_list_padding < 2 ^ 16

pub length-record_list_bytes : (rs : List PdbRecord) → length (record_list_bytes rs) ≡ 8 * length rs
length-record_list_bytes [] = omega arith
length-record_list_bytes (r ∷ rs) = omega (arith, length-record_list_bytes rs)

pub length-names_bytes :
    (names : List (List ℕ))
    → All (λ name. length name ≡ 16) names
    → length (names_bytes names) ≡ 16 * length names
length-names_bytes [] h = omega arith
length-names_bytes (n ∷ names) h =
    omega (arith, length-append n (names_bytes names), length-names_bytes names h.1, h.0)
