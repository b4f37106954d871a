-- ===== src/Files.antt =====
-- lab2/zad1 and lab2/zad2: programs that replace and reverse the bytes of a file. A file is its bytes, or none where it is
-- not there; every write is taken to succeed. The clocks and their reports are left out.
pub mod Zamien
pub mod Zamien2
pub mod Reverse
pub mod Reverse2
pub mod Laws
mod Tests
use operating_systems_agh.Prelude.{
  ℕ, ◌+◌, List, [], ◌∷◌, ◌++◌, Option, take, drop, ◌==◌, if◌then◌else◌,
}

-- The byte at a position is written, and those before and after stay.
abbrev pub write_byte : ℕ → ℕ → List ℕ → List ℕ
write_byte pos b file = take pos file ++ b ∷ drop (pos + 1) file

-- The program has ended with a status and has left the output as it is.
pub record Ending : Type 0 where
  pub status : ℕ
  pub output : Option (List ℕ)

-- `if(buffer == *search) buffer = *replace;`
unfoldable pub replaced : ℕ → ℕ → ℕ → ℕ
replaced search replace buffer = if buffer == search then replace else buffer
