-- ===== src/Header/Bytes.antt =====
-- A finished header consists of bytes.
use tar.Base.{
  ℕ, zero, suc, ◌+◌, ◌%◌, ◌/◌, arith, List, [], ◌∷◌, ◌++◌, take, drop, replicate, All, All-append,
}
use tar.Base.Words.{IsByte}
use tar.Field.Encode.{to_octal, octal_loop}
use tar.Header.{set_chksum, simple_finish_header, sum_bytes}
use tar.Header.Sums.{All-take, All-drop}

pub octal_loop-IsByte :
    (v i : ℕ) (done : List ℕ) → All IsByte done → All IsByte (octal_loop v i done)
unfolding octal_loop
octal_loop-IsByte v zero done h = h
octal_loop-IsByte v (suc i) done h =
    octal_loop-IsByte (v / 8) i ((b'0' + v % 8) ∷ done) (omega arith, h)

set_chksum-IsByte :
    (h field : List ℕ) → All IsByte h → All IsByte field → All IsByte (set_chksum h field)
set_chksum-IsByte h field bytes new =
    All-append IsByte (take 148 h) (field ++ drop 156 h) (All-take IsByte 148 h bytes)
      (All-append IsByte field (drop 156 h) new (All-drop IsByte 156 h bytes))

pub simple_finish_header-IsByte : (h : List ℕ) → All IsByte h → All IsByte (simple_finish_header h)
unfolding simple_finish_header to_octal
simple_finish_header-IsByte h bytes =
    let sum = sum_bytes (set_chksum h (replicate 8 b' ')) in
    set_chksum-IsByte h (to_octal sum 6 ++ (0 ∷ b' ' ∷ [])) bytes (
      All-append IsByte (octal_loop sum 6 []) (0 ∷ b' ' ∷ []) (octal_loop-IsByte sum 6 [] tt)
        (omega arith, (omega arith, tt)))
