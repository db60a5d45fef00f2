-- ===== src/Nfs/Kernel.antt =====
-- agent/storage/nfs/kernel.go: the exporter that runs the tool exportfs.
use Prim.Native.Nat.{bit_xor}
use btrfs_nfs_csi.Base.{
  ℕ, zero, suc, ◌/◌, ◌%◌, ◌^◌, ◌≡◌, refl, Bool, true, false, ◌&&◌, ◌||◌, List, [], ◌∷◌, ◌++◌,
  Option, none, some, Bytes, codes, ◌=b◌, ◌==◌, cut, split, fields, has_prefix, contains,
  if◌then◌else◌,
}
use btrfs_nfs_csi.Strconv.{format}
use btrfs_nfs_csi.Nfs.{ExportInfo, Exporter}

-- utils.Runner: the output and whether no error came back. The tool and its table are not modelled.
pub record Runner : Type 1 where
  pub World : Type 0
  pub run : Bytes → List Bytes → World → (Bytes × Bool) × World

-- hash/crc32 with the IEEE polynomial: eight rounds for each byte.
crc_rounds : ℕ → ℕ → ℕ
crc_rounds zero crc = crc
crc_rounds (suc n) crc =
    crc_rounds n (if crc % 2 == 1 then bit_xor (crc / 2) 0xedb8_8320 else crc / 2)

crc_update : ℕ → Bytes → ℕ
unfolding crc_rounds
crc_update crc [] = crc
crc_update crc (c ∷ s) = crc_update (bit_xor (crc_rounds 8 (bit_xor (crc % 256) c)) (crc / 256)) s

unfoldable pub checksum_ieee : Bytes → ℕ
unfolding crc_update
checksum_ieee s = bit_xor (crc_update 0xffff_ffff s) 0xffff_ffff

-- `& 0x7FFFFFFF` keeps the low 31 bits.
unfoldable pub fsid : Bytes → ℕ
fsid path = let masked = checksum_ieee path % 2 ^ 31 in if masked == 0 then 1 else masked

unfoldable pub exportfs_client : Bytes → Bytes
exportfs_client client =
    if contains client (codes ":") then b'[' ∷ (client ++ b']' ∷ []) else client

-- strings.TrimPrefix(addr, "[") where the prefix is there.
unfoldable pub unbracketed : Bytes → Bytes → Bytes
unbracketed (c ∷ addr) client = if c == b'[' then addr else client
unbracketed [] client = client

unfoldable pub unwrap_brackets : Bytes → Bytes
unfolding unbracketed
unwrap_brackets client = elim (cut b']' client) [
  | none ↦ client
  | some (addr, _) ↦ unbracketed addr client
]

-- strings.Cut(field, "("), and the brackets taken off.
unfoldable pub client_of : Bytes → Bytes
client_of field = elim (cut b'(' field) [
  | none ↦ unwrap_brackets field
  | some (raw, _) ↦ unwrap_brackets raw
]

-- The line starts with a tab or with a space.
unfoldable pub indented : Bytes → Bool
indented line = has_prefix line (codes "\t") || has_prefix line (codes " ")

-- One round of parseExports over the fields of a line: the entry read, and the path that waits for
-- its client, which is empty where none does.
unfoldable pub parse_fields : Bool → List Bytes → Bytes → Option ExportInfo × Bytes
parse_fields _ [] current = (none, current)
parse_fields false (path ∷ client ∷ _) current =
    (some record { path = path; client = client_of client }, [])
parse_fields false (path ∷ []) current = (none, path)
parse_fields true (client ∷ _) current =
    if current =b []
    then (none, current)
    else (some record { path = current; client = client_of client }, [])

abbrev pub append_entry : Option ExportInfo → List ExportInfo → List ExportInfo
append_entry none entries = entries
append_entry (some e) entries = e ∷ entries

unfoldable pub parse_lines : Bytes → List Bytes → List ExportInfo
unfolding parse_fields
parse_lines current [] = []
parse_lines current (line ∷ lines) =
    let round = parse_fields (indented line) (fields line) current in
    append_entry round.0 (parse_lines round.1 lines)

unfoldable pub parse_exports : Bytes → List ExportInfo
unfolding parse_lines
parse_exports output = parse_lines [] (split b'\n' output)

unfoldable pub clients_of : Bytes → List ExportInfo → List Bytes
clients_of path [] = []
clients_of path (e ∷ entries) =
    let rest = clients_of path entries in if e.path =b path then e.client ∷ rest else rest

-- `client:path`
unfoldable pub target : Bytes → Bytes → Bytes
target path client = exportfs_client client ++ b':' ∷ path

module _ (R : Runner) (bin opts : Bytes) where
  unfoldable pub kernel_add : Bytes → Bytes → R.World → Bool × R.World
  kernel_add path client w =
      let r =
        R.run bin
          (codes "-o"
            ∷ (opts ++ (codes ",fsid=" ++ format 10 (fsid path)))
            ∷ target path client
            ∷ [])
          w in
      (r.0.1, r.1)

  -- A failure whose output says that there is no such entry is none.
  unfoldable pub try_unexport : Bytes → Bytes → R.World → Bool × R.World
  try_unexport path client w =
      let r = R.run bin (codes "-u" ∷ target path client ∷ []) w in
      (r.0.1 || contains r.0.0 (codes "Could not find"), r.1)

  -- `lastErr == nil` behind the loop.
  unfoldable pub unexport_clients : Bytes → List Bytes → Bool → R.World → Bool × R.World
  unexport_clients path [] fine w = (fine, w)
  unexport_clients path (c ∷ clients) fine w =
      let r = try_unexport path c w in unexport_clients path clients (fine && r.0) r.1

  unfoldable pub kernel_list_exports : R.World → Option (List ExportInfo) × R.World
  kernel_list_exports w =
      let r = R.run bin (codes "-v" ∷ []) w in
      (if r.0.1 then some (parse_exports r.0.0) else none, r.1)

  unfoldable pub unexport_listed : Bytes → Option (List ExportInfo) → R.World → Bool × R.World
  unexport_listed path none w = (false, w)
  unexport_listed path (some entries) w = unexport_clients path (clients_of path entries) true w

  unfoldable pub kernel_unexport : Bytes → Bytes → R.World → Bool × R.World
  kernel_unexport path client w =
      let listed = kernel_list_exports w in
      if client =b [] then unexport_listed path listed.0 listed.1 else try_unexport path client w

  abbrev pub kernel_exporter : Exporter
  kernel_exporter = record {
    State = R.World;
    add = kernel_add;
    unexport = kernel_unexport;
    list_exports = kernel_list_exports;
  }

crc_runs : checksum_ieee (codes "123456789") ≡ 0xcbf4_3926
unfolding checksum_ieee
crc_runs = refl

parse_exports_runs :
    parse_exports (codes "/d/a  \t10.0.0.1(rw)\n/d/long\n\t\t[fd00::1](rw)\n")
    ≡ record { path = codes "/d/a"; client = codes "10.0.0.1" }
      ∷ record { path = codes "/d/long"; client = codes "fd00::1" }
      ∷ []
unfolding parse_exports unwrap_brackets client_of indented fields has_prefix cut ◌=b◌
parse_exports_runs = refl
