-- ===== src/Log/Sinker/Contents.antt =====
-- What the buffers hold: the text that is still to be written out, and the invariant.
use p_base.Base.{
  ℕ, suc, ◌+◌, ◌-◌, ◌≤◌, ◌≡◌, refl, sym, ap, ◌∙◌, arith, false, Option, none, some, ◌==◌,
  if◌then◌else◌, List, [], ◌∷◌, ◌++◌, append_assoc, read,
}
use p_base.Log.Sinker.{BufferRef, LogSinker, flush_buffer_size, set_bytes, ref_text}

-- The text of all references, one behind the other.
unfoldable pub refs_text : (ℕ → ℕ → ℕ) → List BufferRef → List ℕ
refs_text bytes [] = []
refs_text bytes (r ∷ rs) = ref_text bytes r ++ refs_text bytes rs

-- The text of the buffer in use that no reference stands for.
abbrev pub written : LogSinker → List ℕ
written s = elim s.cur_buffer [ none ↦ [] | some b ↦ read (s.bytes b) s.ptr (s.cur_ptr - s.ptr) ]

-- All that was logged and not lost: the output, and what is still to be written out.
abbrev pub all_text : LogSinker → List ℕ
all_text s = s.output ++ (refs_text s.bytes s.ref_list ++ written s)

abbrev pub count : ℕ → List ℕ → ℕ
count b [] = 0
count b (c ∷ cs) = let rest = count b cs in if c == b then suc rest else rest

-- The buffers of the empty references.
unfoldable pub returned : List BufferRef → List ℕ
returned [] = []
returned (r ∷ rs) = let rest = returned rs in if r.size == 0 then r.buffer ∷ rest else rest

abbrev pub uses : ℕ → Option ℕ → ℕ
uses b none = 0
uses b (some c) = if c == b then 1 else 0

-- How many places have buffer `b`: the free list, the references that give it back, and the one in
-- use.
abbrev pub owners : ℕ → LogSinker → ℕ
owners b s = count b s.free_buffer_list + count b (returned s.ref_list) + uses b s.cur_buffer

-- Each reference is to a buffer that will be given back.
abbrev pub AllReturn : List ℕ → List BufferRef → Type 0
AllReturn back [] = Unit
AllReturn back (r ∷ rs) = (1 ≤ count r.buffer back) × AllReturn back rs

abbrev pub own : Option ℕ → List ℕ
own none = []
own (some b) = b ∷ []

-- The buffers have one owner each, and every reference is to a buffer that is in use or will be
-- given back.
pub record IsOwned (s : LogSinker) : Type 0 where
  pub owned : (b : ℕ) → owners b s ≤ 1
  pub known : (b : ℕ) → s.next_buffer ≤ b → owners b s ≡ 0
  pub return : AllReturn (returned s.ref_list ++ own s.cur_buffer) s.ref_list
  pub ordered : (s.ptr ≤ s.cur_ptr) × (s.cur_ptr ≤ s.end_ptr) × (s.end_ptr ≤ flush_buffer_size)
  pub none_yet : s.cur_buffer ≡ none → (s.ptr ≡ 0) × (s.cur_ptr ≡ 0) × (s.end_ptr ≡ 0)

-- No reference is to the buffer in use, so what is written there changes no text.
pub record IsSinker (s : LogSinker) : Type 0 where
  pub valid : IsOwned s
  pub open valid use *
  pub apart : AllReturn (returned s.ref_list) s.ref_list

pub count-append : (b : ℕ) (xs ys : List ℕ) → count b (xs ++ ys) ≡ count b xs + count b ys
count-append b [] ys = omega arith
count-append b (x ∷ xs) ys = ground (arith, count-append b xs ys)

pub returned-append :
    (b : ℕ) (rs qs : List BufferRef)
    → count b (returned (rs ++ qs)) ≡ count b (returned rs) + count b (returned qs)
unfolding returned
returned-append b [] qs = omega arith
returned-append b (r ∷ rs) qs = ground (arith, returned-append b rs qs)

pub AllReturn-mono :
    (back back' : List ℕ) (rs : List BufferRef)
    → ((b : ℕ) → count b back ≤ count b back')
    → AllReturn back rs
    → AllReturn back' rs
AllReturn-mono back back' [] h a = tt
AllReturn-mono back back' (r ∷ rs) h (a, more) =
    (omega (arith, h r.buffer), AllReturn-mono back back' rs h more)

pub AllReturn-append :
    (back : List ℕ) (rs qs : List BufferRef)
    → AllReturn back rs
    → AllReturn back qs
    → AllReturn back (rs ++ qs)
AllReturn-append back [] qs a c = c
AllReturn-append back (r ∷ rs) qs (a, more) c = (a, AllReturn-append back rs qs more c)

pub refs_text-append :
    (bytes : ℕ → ℕ → ℕ) (rs qs : List BufferRef)
    → refs_text bytes (rs ++ qs) ≡ refs_text bytes rs ++ refs_text bytes qs
unfolding refs_text
refs_text-append bytes [] qs = refl
refs_text-append bytes (r ∷ rs) qs =
    ap (λ l. ref_text bytes r ++ l) (refs_text-append bytes rs qs)
    ∙ sym (append_assoc (ref_text bytes r) (refs_text bytes rs) (refs_text bytes qs))

-- A write to a buffer that no reference is to changes no text of them.
pub refs_text-set :
    (bytes : ℕ → ℕ → ℕ) (b : ℕ) (f : ℕ → ℕ) (back : List ℕ) (rs : List BufferRef)
    → count b back ≡ 0
    → AllReturn back rs
    → refs_text (set_bytes bytes b f) rs ≡ refs_text bytes rs
unfolding refs_text set_bytes
refs_text-set bytes b f back [] h a = refl
refs_text-set bytes b f back (r ∷ rs) h (a, more) =
    let other : r.buffer == b ≡ false = ground (arith, a, h) in
    rw other (ap (λ l. ref_text bytes r ++ l) (refs_text-set bytes b f back rs h more))
