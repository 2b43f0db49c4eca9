-- ===== src/Netbuffer/Reader.antt =====
-- `BuffReader` of netbuffer.hpp and netbuffer.cpp: a cursor over a byte buffer that remembers a read
-- past the end and then yields zeros; and the free functions that read at an index.
pub mod Reads
pub mod Sequences
pub mod Bounds
pub mod Discard
pub mod Misses
pub mod Short
use cpp_owl_common.Prelude.{
  ℕ, zero, suc, ◌+◌, ◌/◌, ◌-◌, ◌%◌, List, [], ◌∷◌, ◌++◌, Bool, true, false, length, take, drop, leb,
  ltb, if◌then◌else◌, u32_mod, replicate,
}
use cpp_owl_common.Netbuffer.Endian.{Host, little_endian, from_network_endian}
use cpp_owl_common.Netbuffer.Primitive.{Primitive, uint16, uint32}
use cpp_owl_common.Netbuffer.Push.{Buffer}

-- `buff_i` is the offset of the iterator of that name.
pub record BuffReader : Type 0 where
  pub buff_i : ℕ
  pub little_endian : Bool
  pub out_of_range : Bool
  pub cur_index : ℕ
  pub buff : Buffer

unfoldable pub new_reader : Host → Buffer → Bool → BuffReader
new_reader h buffer check_endian = record {
  buff_i = 0;
  little_endian = if check_endian then little_endian h else false;
  out_of_range = false;
  cur_index = 0;
  buff = buffer;
}

-- A member function takes the reader and returns its result and the reader after the call.
abbrev pub Read {ℓ} : Type ℓ → Type ℓ
Read A = BuffReader → A × BuffReader

infixl 5 ◌>>=◌
unfoldable pub ◌>>=◌ {ℓ κ} : {A : Type ℓ} {B : Type κ} → Read A → (A → Read B) → Read B
◌>>=◌ m f r = let (a, r') = m r in f a r'

unfoldable pub pure {ℓ} : {A : Type ℓ} → A → Read A
pure a r = (a, r)

-- `cur_index` is an unsigned int; the iterator is moved by the size_t itself.
unfoldable pub discard : ℕ → BuffReader → BuffReader
discard bytes r =
    let cur = (r.cur_index + bytes) % u32_mod in
    record r {
      cur_index = if ltb (length r.buff) cur then length r.buff else cur;
      buff_i = r.buff_i + bytes;
    }

module _ {T : Type 0} (h : Host) (t : Primitive T) where
  -- `cur_index + sizeof(T)` is computed in a size_t, and does not wrap there.
  unfoldable pub read_primitive : Read T
  read_primitive r =
      if leb (r.cur_index + t.size) (length r.buff)
      then (
        t.value h (from_network_endian h (take t.size (drop r.buff_i r.buff)) t.size),
        record r { cur_index = (r.cur_index + t.size) % u32_mod; buff_i = r.buff_i + t.size },
      )
      else (t.null, record r { out_of_range = true })

  -- `for (I = begin; cur_index + val_size <= buff.size() and I != end; ++I) *I = readPrimitive()`:
  -- the items that the buffer has no bytes for keep their value.
  unfoldable pub read_primitive_container : List T → Read (List T)
  read_primitive_container [] r = ([], r)
  read_primitive_container (x ∷ xs) r = elim (leb (r.cur_index + t.size) (length r.buff)) [
    | true ↦
        let (y, r') = read_primitive r in
        let (ys, r'') = read_primitive_container xs r' in (y ∷ ys, r'')
    | false ↦ (x ∷ xs, r)
  ]

  -- The loop of `readSizedVector` with `n` rounds left.
  unfoldable pub vector_loop : ℕ → List T → Read (List T)
  vector_loop zero vect r = (vect, r)
  vector_loop (suc n) vect r = elim (leb (r.cur_index + t.size) (length r.buff)) [
    | true ↦ let (val, r') = read_primitive r in vector_loop n (vect ++ (val ∷ [])) r'
    | false ↦ (vect, r)
  ]

-- `for (size_t i = 0; i < n; ++i) out.push_back(read())`
unfoldable pub read_loop {ℓ} : {A : Type ℓ} → ℕ → Read A → List A → Read (List A)
read_loop zero read out r = (out, r)
read_loop (suc n) read out r = let (a, r') = read r in read_loop n read (out ++ (a ∷ [])) r'

unfoldable pub read_sized_vector : {T : Type 0} → Host → Primitive T → Read (List T)
unfolding ◌>>=◌ read_primitive vector_loop
read_sized_vector h t = do bytes ← read_primitive h uint32; vector_loop h t (bytes / t.size) []

module _ (h : Host) where
  unfoldable pub read_utf16 : ℕ → Read (List ℕ)
  unfolding read_primitive read_loop
  read_utf16 size = read_loop size (read_primitive h uint16) []

  unfoldable pub read_sized_utf16 : Read (List ℕ)
  unfolding ◌>>=◌ read_primitive read_loop
  read_sized_utf16 = do
    bytes ← read_primitive h uint32
    read_loop (bytes / 2) (read_primitive h uint16) []

-- The free function `readPrimitive(buff, index)`, zero when the bytes are not all there, at an index to
-- which the size of the type can be added in a size_t.
unfoldable pub read_primitive_at : {T : Type 0} → Host → Primitive T → Buffer → ℕ → T
read_primitive_at h t buff index =
    if ltb (index + (t.size - 1)) (length buff)
    then t.value h (from_network_endian h (take t.size (drop index buff)) t.size)
    else t.value h (from_network_endian h (replicate t.size 0) t.size)
