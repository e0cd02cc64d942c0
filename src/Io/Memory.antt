-- ===== src/Io/Memory.antt =====
-- nebari/src/io/memory.rs: `MemoryFile`, the file that the other modules stand on here.
--
-- The buffer that handles of one path share is a field: the operations below take one handle. The
-- path, the id and the lock of the buffer are left out.
use nebari.Common.{ℕ, ◌+◌, ◌-◌, List, ◌++◌, length, take, drop, leb, ltb, if◌then◌else◌}
use nebari.Error.{Result, ok, err, io, panic}

pub record MemoryFile (B : Type 0) : Type 0 where
  pub buffer : List B
  pub position : ℕ

-- `std::io::SeekFrom`, with the sign of the relative moves in the constructor.
pub data SeekFrom : Type 0 where
  start from_end before_end forward back : ℕ → SeekFrom

module _ {B : Type 0} where
  unfoldable pub file_length : MemoryFile B → ℕ
  file_length file = length file.buffer

  unfoldable pub seek : SeekFrom → MemoryFile B → Result (MemoryFile B)
  seek (start n) file = ok (record file { position = n })
  seek (from_end n) file = ok (record file { position = length file.buffer })
  seek (before_end n) file =
      if leb n (length file.buffer)
      then ok (record file { position = length file.buffer - n })
      else err panic
  seek (forward n) file = ok (record file { position = file.position + n })
  seek (back n) file =
      if leb n file.position then ok (record file { position = file.position - n }) else err panic

  -- `read` fills the whole buffer, of length `n`, or fails.
  unfoldable pub read : ℕ → MemoryFile B → Result (List B × MemoryFile B)
  read n file =
      if ltb (length file.buffer) (file.position + n)
      then err io
      else ok
          (take n (drop file.position file.buffer), record file { position = file.position + n })

  unfoldable pub write : List B → MemoryFile B → MemoryFile B
  write bytes file = record {
    buffer = file.buffer ++ bytes;
    position = file.position + length bytes;
  }
