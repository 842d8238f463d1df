-- ===== src/Fat32/Bytes.antt =====
-- `from_le_bytes` of the standard library, at an offset of a sector or entry. A sector is the list of
-- its bytes.
use asynclear.Prelude.{ℕ, ◌+◌, ◌*◌, List, get_or}

abbrev pub byte_at : List ℕ → ℕ → ℕ
byte_at src i = get_or src i 0

abbrev pub le16 : List ℕ → ℕ → ℕ
le16 src i = byte_at src i + 0x100 * byte_at src (i + 1)

abbrev pub le32 : List ℕ → ℕ → ℕ
le32 src i = le16 src i + 0x1_0000 * le16 src (i + 2)
