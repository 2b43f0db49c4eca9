-- ===== src/Netbuffer/Reader/Discard.antt =====
-- `discard` moves the iterator by the whole number of bytes, and the index to the end at most.
use cpp_owl_common.Prelude.{ℕ, ◌+◌, ◌%◌, ◌≡◌, refl, ◌≤◌, ◌<◌, ◌↔◌, min, length, u32_mod, arith}
use cpp_owl_common.Netbuffer.Reader.{BuffReader, discard}
use cpp_owl_common.Netbuffer.Reader.Bounds.{IsValid}

discard-IsValid :
    (r : BuffReader) (bytes : ℕ)
    → IsValid r
    → r.cur_index + bytes ≤ length r.buff
    → IsValid (discard bytes r)
unfolding discard
discard-IsValid r bytes v fits = record {
  in_step = ground arith;
  inside = ground arith;
  small = v.small;
}

discard_fits :
    (r : BuffReader) (bytes : ℕ)
    → IsValid r
    → r.cur_index + bytes < u32_mod
    → IsValid (discard bytes r)
    → r.cur_index + bytes ≤ length r.buff
unfolding discard
discard_fits r bytes v small v' = ground (arith, v'.in_step, v'.inside)

-- `discard` takes the index to the end of the buffer at most, and the iterator past the end by the bytes
-- that are not there; the flag for reads out of range stays as it is; and the iterator and the index
-- agree and stay inside the buffer exactly if there are as many bytes left. Before the call they agree
-- inside the buffer, which is shorter than 2 ^ 32 bytes, and the sum of the index and the bytes fits 32
-- bits.
pub discard-IsValid_iff :
    (r : BuffReader) (bytes : ℕ)
    → IsValid r
    → r.cur_index + bytes < u32_mod
    → ((discard bytes r).cur_index ≡ min (r.cur_index + bytes) (length r.buff))
      × ((discard bytes r).buff_i ≡ r.cur_index + bytes)
      × ((discard bytes r).out_of_range ≡ r.out_of_range)
      × (IsValid (discard bytes r) ↔ (r.cur_index + bytes ≤ length r.buff))
unfolding discard
discard-IsValid_iff r bytes v small =
    let stays : (r.cur_index + bytes) % u32_mod ≡ r.cur_index + bytes = omega (arith, small) in
    (
      rw stays (ground arith),
      omega (arith, v.in_step),
      refl,
      (discard_fits r bytes v small, discard-IsValid r bytes v),
    )
