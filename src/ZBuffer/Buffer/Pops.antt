-- ===== src/ZBuffer/Buffer/Pops.antt =====
-- What it is to take bytes off the front of a buffer.
use p_base.Base.{ℕ, ◌≡◌, length, take, drop, min}
use p_base.ZBuffer.Block.{Memory}
use p_base.ZBuffer.Buffer.{ZBuffer, simple, array}
use p_base.ZBuffer.Buffer.Contents.{contents, IsBuffer}
use p_base.ZBuffer.Buffer.Read.{Taken}

-- The result of taking `count` bytes off the front.
pub record Pops (z : ZBuffer) (count : ℕ) (m : Memory) (res : Taken) : Type 0 where
  pub number : res.0 ≡ min count (length (contents m.bytes z))
  pub taken : res.1 ≡ take count (contents m.bytes z)
  pub rest : (bytes : ℕ → ℕ → ℕ) → contents bytes res.2 ≡ drop count (contents bytes z)
  pub valid : IsBuffer res.2
  pub same_bytes : res.3.bytes ≡ m.bytes

-- The first reference of a small buffer is not the empty one of the two.
abbrev pub HasFront : ZBuffer → Type 0
HasFront (simple f s) = f.length ≡ 0 → s.length ≡ 0
HasFront (array n a space) = Unit {0}
