-- ===== src/Ondisk/Header.antt =====
-- `hammer2_read_volume_header`: up to four copies of the header, of which the newest good one counts.
use linux_hammer.Base.{
  ℕ, zero, suc, ◌*◌, ◌-◌, ◌^◌, Bool, false, not, ◌&&◌, ◌==◌, ltb, if◌then◌else◌, Option, none, some,
}
use linux_hammer.Ondisk.{VolumeData}

abbrev pub num_volhdrs : ℕ
num_volhdrs = 4

abbrev pub zone_bytes : ℕ
zone_bytes = 2 ^ 31

abbrev pub volume_bytes : ℕ
volume_bytes = 65536

abbrev pub volume_id_hbo : ℕ
volume_id_hbo = 0x48414d3205172011

abbrev pub volume_id_abo : ℕ
volume_id_abo = 0x11201705324d4148

-- What is read at a header's place: the length of the folio, its bytes, and the header that they are.
pub record Folio : Type 0 where
  pub folio_size : ℕ
  pub bytes : ℕ → ℕ
  pub header : VolumeData

-- A block device: `read` is `read_mapping_folio` at the place of header `i`, `none` for an error.
pub record Device : Type 0 where
  pub mediasize : ℕ
  pub read : ℕ → Option Folio

-- `hammer2_icrc32` of the kernel's CRC: the buffer, the offset in it and the length.
abbrev pub Icrc32 : Type 0
Icrc32 = (ℕ → ℕ) → ℕ → ℕ → ℕ

-- The tests of a header, in their order.
unfoldable pub is_good : Icrc32 → Folio → Bool
is_good icrc32 f =
    if ltb f.folio_size volume_bytes
    then false
    else (if not (f.header.magic == volume_id_hbo) && not (f.header.magic == volume_id_abo)
        then false
        else (if f.header.magic == volume_id_abo
            then false
            else (if not (f.header.icrc_sect0 == icrc32 f.bytes 0 (512 - 4))
                then false
                else (if not (f.header.icrc_sect1 == icrc32 f.bytes 512 512)
                    then false
                    else f.header.icrc_volheader == icrc32 f.bytes 0 (65536 - 4)))))

-- The zone and `*voldata`, once there is a good header.
abbrev pub BestHeader : Type 0
BestHeader = Option (ℕ × VolumeData)

unfoldable pub take_header : ℕ → VolumeData → BestHeader → BestHeader
take_header i h none = some (i, h)
take_header i h (some (zone, best)) =
    if ltb best.mirror_tid h.mirror_tid then some (i, h) else some (zone, best)

-- The header at place `i`, if it is read and passes the tests.
unfoldable pub header_at : Icrc32 → Device → ℕ → Option VolumeData
unfolding is_good
header_at icrc32 d i =
    if ltb (i * zone_bytes) d.mediasize
    then elim (d.read i) [ none ↦ none | some f ↦ if is_good icrc32 f then some f.header else none ]
    else none

-- One turn of the loop.
unfoldable pub with_header : ℕ → Option VolumeData → BestHeader → BestHeader
unfolding take_header
with_header i none best = best
with_header i (some h) best = take_header i h best

unfoldable pub read_headers : Icrc32 → Device → ℕ → ℕ → BestHeader → BestHeader
unfolding with_header header_at
read_headers icrc32 d zero i best = best
read_headers icrc32 d (suc left) i best =
    read_headers icrc32 d left (suc i) (with_header i (header_at icrc32 d i) best)

-- The zone and the header; `none` is -EINVAL.
unfoldable pub hammer2_read_volume_header : Icrc32 → Device → BestHeader
unfolding read_headers
hammer2_read_volume_header icrc32 d = read_headers icrc32 d num_volhdrs 0 none
