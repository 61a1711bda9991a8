-- ===== src/Instr/Factory/Words.antt =====
-- The word of each format of the factory is the sum of its fields: no two of the parts that it joins by `|`
-- overlap. The parts come in the order of the source.
use riscv_vp_plusplus.Instr.Factory.{r_type, i_type, s_type, shift_type, b_type, jal, lui}
use riscv_vp_plusplus.Base.{
  ℕ, ◌+◌, ◌*◌, ◌/◌, ◌%◌, ◌^◌, ◌<◌, ◌≡◌, arith, bit_and, bit_or, bit_or_add, bit_and_ones,
  bit_and_field,
}

r_parts :
    (d s t op f g : ℕ)
    → d < 32
    → s < 32
    → t < 32
    → op < 128
    → f < 8
    → g < 128
    → bit_or
        (bit_or (bit_or (bit_or (bit_or (d * 2 ^ 7) (s * 2 ^ 15)) (t * 2 ^ 20)) op) (f * 2 ^ 12))
        (g * 2 ^ 25)
      ≡ op + d * 2 ^ 7 + f * 2 ^ 12 + s * 2 ^ 15 + t * 2 ^ 20 + g * 2 ^ 25
r_parts d s t op f g h_d h_s h_t h_op h_f h_g =
    let p1 =
      bit_or_add 5 15 0 (d * 2 ^ 7) s (d * 2 ^ 7) (s * 2 ^ 15) (omega arith) (omega arith)
        (omega arith) (omega arith) in
    let p2 =
      bit_or_add 5 20 0 (d * 2 ^ 7 + s * 2 ^ 15) t (bit_or (d * 2 ^ 7) (s * 2 ^ 15)) (t * 2 ^ 20)
        (omega (arith, p1)) (omega (arith, p1)) (omega arith) (omega arith) in
    let p3 =
      bit_or_add 7 0 (d + s * 2 ^ 8 + t * 2 ^ 13) 0 op
        (bit_or (bit_or (d * 2 ^ 7) (s * 2 ^ 15)) (t * 2 ^ 20)) op (omega (arith, p1, p2))
        (omega (arith, p1, p2)) (omega arith) (omega arith) in
    let p4 =
      bit_or_add 3 12 (s + t * 2 ^ 5) (d * 2 ^ 7 + op) f
        (bit_or (bit_or (bit_or (d * 2 ^ 7) (s * 2 ^ 15)) (t * 2 ^ 20)) op) (f * 2 ^ 12)
        (omega (arith, p1, p2, p3)) (omega (arith, p1, p2, p3)) (omega arith) (omega arith) in
    let p5 =
      bit_or_add 7 25 0 (d * 2 ^ 7 + s * 2 ^ 15 + t * 2 ^ 20 + op + f * 2 ^ 12) g
        (bit_or (bit_or (bit_or (bit_or (d * 2 ^ 7) (s * 2 ^ 15)) (t * 2 ^ 20)) op) (f * 2 ^ 12))
        (g * 2 ^ 25) (omega (arith, p1, p2, p3, p4)) (omega (arith, p1, p2, p3, p4)) (omega arith)
        (omega arith) in
    omega (arith, p1, p2, p3, p4, p5)

shift_parts :
    (d s t op f g : ℕ)
    → d < 32
    → s < 32
    → t < 64
    → op < 128
    → f < 8
    → g < 64
    → bit_or
        (bit_or (bit_or (bit_or (bit_or (d * 2 ^ 7) (s * 2 ^ 15)) (t * 2 ^ 20)) op) (f * 2 ^ 12))
        (g * 2 ^ 26)
      ≡ op + d * 2 ^ 7 + f * 2 ^ 12 + s * 2 ^ 15 + t * 2 ^ 20 + g * 2 ^ 26
shift_parts d s t op f g h_d h_s h_t h_op h_f h_g =
    let p1 =
      bit_or_add 5 15 0 (d * 2 ^ 7) s (d * 2 ^ 7) (s * 2 ^ 15) (omega arith) (omega arith)
        (omega arith) (omega arith) in
    let p2 =
      bit_or_add 6 20 0 (d * 2 ^ 7 + s * 2 ^ 15) t (bit_or (d * 2 ^ 7) (s * 2 ^ 15)) (t * 2 ^ 20)
        (omega (arith, p1)) (omega (arith, p1)) (omega arith) (omega arith) in
    let p3 =
      bit_or_add 7 0 (d + s * 2 ^ 8 + t * 2 ^ 13) 0 op
        (bit_or (bit_or (d * 2 ^ 7) (s * 2 ^ 15)) (t * 2 ^ 20)) op (omega (arith, p1, p2))
        (omega (arith, p1, p2)) (omega arith) (omega arith) in
    let p4 =
      bit_or_add 3 12 (s + t * 2 ^ 5) (d * 2 ^ 7 + op) f
        (bit_or (bit_or (bit_or (d * 2 ^ 7) (s * 2 ^ 15)) (t * 2 ^ 20)) op) (f * 2 ^ 12)
        (omega (arith, p1, p2, p3)) (omega (arith, p1, p2, p3)) (omega arith) (omega arith) in
    let p5 =
      bit_or_add 6 26 0 (d * 2 ^ 7 + s * 2 ^ 15 + t * 2 ^ 20 + op + f * 2 ^ 12) g
        (bit_or (bit_or (bit_or (bit_or (d * 2 ^ 7) (s * 2 ^ 15)) (t * 2 ^ 20)) op) (f * 2 ^ 12))
        (g * 2 ^ 26) (omega (arith, p1, p2, p3, p4)) (omega (arith, p1, p2, p3, p4)) (omega arith)
        (omega arith) in
    omega (arith, p1, p2, p3, p4, p5)

i_parts :
    (m d s op f : ℕ)
    → m < 4096
    → d < 32
    → s < 32
    → op < 128
    → f < 8
    → bit_or (bit_or (bit_or (bit_or (m * 2 ^ 20) (d * 2 ^ 7)) (s * 2 ^ 15)) op) (f * 2 ^ 12)
      ≡ op + d * 2 ^ 7 + f * 2 ^ 12 + s * 2 ^ 15 + m * 2 ^ 20
i_parts m d s op f h_m h_d h_s h_op h_f =
    let p1 =
      bit_or_add 5 7 (m * 2 ^ 8) 0 d (m * 2 ^ 20) (d * 2 ^ 7) (omega arith) (omega arith)
        (omega arith) (omega arith) in
    let p2 =
      bit_or_add 5 15 m (d * 2 ^ 7) s (bit_or (m * 2 ^ 20) (d * 2 ^ 7)) (s * 2 ^ 15)
        (omega (arith, p1)) (omega (arith, p1)) (omega arith) (omega arith) in
    let p3 =
      bit_or_add 7 0 (m * 2 ^ 13 + d + s * 2 ^ 8) 0 op
        (bit_or (bit_or (m * 2 ^ 20) (d * 2 ^ 7)) (s * 2 ^ 15)) op (omega (arith, p1, p2))
        (omega (arith, p1, p2)) (omega arith) (omega arith) in
    let p4 =
      bit_or_add 3 12 (m * 2 ^ 5 + s) (d * 2 ^ 7 + op) f
        (bit_or (bit_or (bit_or (m * 2 ^ 20) (d * 2 ^ 7)) (s * 2 ^ 15)) op) (f * 2 ^ 12)
        (omega (arith, p1, p2, p3)) (omega (arith, p1, p2, p3)) (omega arith) (omega arith) in
    omega (arith, p1, p2, p3, p4)

s_parts :
    (lo hi s t op f : ℕ)
    → lo < 32
    → hi < 128
    → s < 32
    → t < 32
    → op < 128
    → f < 8
    → bit_or
        (bit_or (bit_or (bit_or (bit_or (lo * 2 ^ 7) (hi * 2 ^ 25)) (s * 2 ^ 15)) (t * 2 ^ 20)) op)
        (f * 2 ^ 12)
      ≡ op + lo * 2 ^ 7 + f * 2 ^ 12 + s * 2 ^ 15 + t * 2 ^ 20 + hi * 2 ^ 25
s_parts lo hi s t op f h_lo h_hi h_s h_t h_op h_f =
    let p1 =
      bit_or_add 7 25 0 (lo * 2 ^ 7) hi (lo * 2 ^ 7) (hi * 2 ^ 25) (omega arith) (omega arith)
        (omega arith) (omega arith) in
    let p2 =
      bit_or_add 5 15 (hi * 2 ^ 5) (lo * 2 ^ 7) s (bit_or (lo * 2 ^ 7) (hi * 2 ^ 25)) (s * 2 ^ 15)
        (omega (arith, p1)) (omega (arith, p1)) (omega arith) (omega arith) in
    let p3 =
      bit_or_add 5 20 hi (lo * 2 ^ 7 + s * 2 ^ 15) t
        (bit_or (bit_or (lo * 2 ^ 7) (hi * 2 ^ 25)) (s * 2 ^ 15)) (t * 2 ^ 20)
        (omega (arith, p1, p2)) (omega (arith, p1, p2)) (omega arith) (omega arith) in
    let p4 =
      bit_or_add 7 0 (lo + hi * 2 ^ 18 + s * 2 ^ 8 + t * 2 ^ 13) 0 op
        (bit_or (bit_or (bit_or (lo * 2 ^ 7) (hi * 2 ^ 25)) (s * 2 ^ 15)) (t * 2 ^ 20)) op
        (omega (arith, p1, p2, p3)) (omega (arith, p1, p2, p3)) (omega arith) (omega arith) in
    let p5 =
      bit_or_add 3 12 (hi * 2 ^ 10 + s + t * 2 ^ 5) (lo * 2 ^ 7 + op) f
        (bit_or (bit_or (bit_or (bit_or (lo * 2 ^ 7) (hi * 2 ^ 25)) (s * 2 ^ 15)) (t * 2 ^ 20)) op)
        (f * 2 ^ 12) (omega (arith, p1, p2, p3, p4)) (omega (arith, p1, p2, p3, p4)) (omega arith)
        (omega arith) in
    omega (arith, p1, p2, p3, p4, p5)

u_parts :
    (m d op : ℕ)
    → m < 1048576
    → d < 32
    → op < 128
    → bit_or (bit_or (m * 2 ^ 12) (d * 2 ^ 7)) op ≡ op + d * 2 ^ 7 + m * 2 ^ 12
u_parts m d op h_m h_d h_op =
    let p1 =
      bit_or_add 5 7 m 0 d (m * 2 ^ 12) (d * 2 ^ 7) (omega arith) (omega arith) (omega arith)
        (omega arith) in
    let p2 =
      bit_or_add 7 0 (m * 2 ^ 5 + d) 0 op (bit_or (m * 2 ^ 12) (d * 2 ^ 7)) op (omega (arith, p1))
        (omega (arith, p1)) (omega arith) (omega arith) in
    omega (arith, p1, p2)

b_parts :
    (lo b11 mid b12 s t op f : ℕ)
    → lo < 16
    → b11 < 2
    → mid < 64
    → b12 < 2
    → s < 32
    → t < 32
    → op < 128
    → f < 8
    → bit_or
        (bit_or
          (bit_or
            (bit_or
              (bit_or (bit_or (lo * 2 ^ 8) (b11 * 2 ^ 7)) (bit_or (mid * 2 ^ 25) (b12 * 2 ^ 31)))
              (s * 2 ^ 15))
            (t * 2 ^ 20))
          op)
        (f * 2 ^ 12)
      ≡ op
        + b11 * 2 ^ 7
        + lo * 2 ^ 8
        + f * 2 ^ 12
        + s * 2 ^ 15
        + t * 2 ^ 20
        + mid * 2 ^ 25
        + b12 * 2 ^ 31
b_parts lo b11 mid b12 s t op f h_lo h_b11 h_mid h_b12 h_s h_t h_op h_f =
    let p1 =
      bit_or_add 1 7 lo 0 b11 (lo * 2 ^ 8) (b11 * 2 ^ 7) (omega arith) (omega arith) (omega arith)
        (omega arith) in
    let p2 =
      bit_or_add 1 31 0 (mid * 2 ^ 25) b12 (mid * 2 ^ 25) (b12 * 2 ^ 31) (omega (arith, p1))
        (omega (arith, p1)) (omega arith) (omega arith) in
    let p3 =
      bit_or_add 7 25 0 (lo * 2 ^ 8 + b11 * 2 ^ 7) (mid + b12 * 2 ^ 6)
        (bit_or (lo * 2 ^ 8) (b11 * 2 ^ 7)) (bit_or (mid * 2 ^ 25) (b12 * 2 ^ 31))
        (omega (arith, p1, p2)) (omega (arith, p1, p2)) (omega arith) (omega arith) in
    let p4 =
      bit_or_add 5 15 (mid * 2 ^ 5 + b12 * 2 ^ 11) (lo * 2 ^ 8 + b11 * 2 ^ 7) s
        (bit_or (bit_or (lo * 2 ^ 8) (b11 * 2 ^ 7)) (bit_or (mid * 2 ^ 25) (b12 * 2 ^ 31)))
        (s * 2 ^ 15) (omega (arith, p1, p2, p3)) (omega (arith, p1, p2, p3)) (omega arith)
        (omega arith) in
    let p5 =
      bit_or_add 5 20 (mid + b12 * 2 ^ 6) (lo * 2 ^ 8 + b11 * 2 ^ 7 + s * 2 ^ 15) t
        (bit_or (bit_or (bit_or (lo * 2 ^ 8) (b11 * 2 ^ 7)) (bit_or (mid * 2 ^ 25) (b12 * 2 ^ 31)))
          (s * 2 ^ 15))
        (t * 2 ^ 20) (omega (arith, p1, p2, p3, p4)) (omega (arith, p1, p2, p3, p4)) (omega arith)
        (omega arith) in
    let p6 =
      bit_or_add 7 0 (lo * 2 ^ 1 + b11 + mid * 2 ^ 18 + b12 * 2 ^ 24 + s * 2 ^ 8 + t * 2 ^ 13) 0 op
        (bit_or
          (bit_or
            (bit_or (bit_or (lo * 2 ^ 8) (b11 * 2 ^ 7)) (bit_or (mid * 2 ^ 25) (b12 * 2 ^ 31)))
            (s * 2 ^ 15))
          (t * 2 ^ 20))
        op (omega (arith, p1, p2, p3, p4, p5)) (omega (arith, p1, p2, p3, p4, p5)) (omega arith)
        (omega arith) in
    let p7 =
      bit_or_add 3 12 (mid * 2 ^ 10 + b12 * 2 ^ 16 + s + t * 2 ^ 5) (lo * 2 ^ 8 + b11 * 2 ^ 7 + op)
        f
        (bit_or
          (bit_or
            (bit_or
              (bit_or (bit_or (lo * 2 ^ 8) (b11 * 2 ^ 7)) (bit_or (mid * 2 ^ 25) (b12 * 2 ^ 31)))
              (s * 2 ^ 15))
            (t * 2 ^ 20))
          op)
        (f * 2 ^ 12) (omega (arith, p1, p2, p3, p4, p5, p6)) (omega (arith, p1, p2, p3, p4, p5, p6))
        (omega arith) (omega arith) in
    omega (arith, p1, p2, p3, p4, p5, p6, p7)

j_parts :
    (op d hi b11 lo b20 : ℕ)
    → op < 128
    → d < 32
    → hi < 256
    → b11 < 2
    → lo < 1024
    → b20 < 2
    → bit_or
        (bit_or op (d * 2 ^ 7))
        (bit_or (bit_or (bit_or (hi * 2 ^ 12) (b11 * 2 ^ 20)) (lo * 2 ^ 21)) (b20 * 2 ^ 31))
      ≡ op + d * 2 ^ 7 + hi * 2 ^ 12 + b11 * 2 ^ 20 + lo * 2 ^ 21 + b20 * 2 ^ 31
j_parts op d hi b11 lo b20 h_op h_d h_hi h_b11 h_lo h_b20 =
    let p1 =
      bit_or_add 5 7 0 op d op (d * 2 ^ 7) (omega arith) (omega arith) (omega arith)
        (omega arith) in
    let p2 =
      bit_or_add 1 20 0 (hi * 2 ^ 12) b11 (hi * 2 ^ 12) (b11 * 2 ^ 20) (omega (arith, p1))
        (omega (arith, p1)) (omega arith) (omega arith) in
    let p3 =
      bit_or_add 10 21 0 (hi * 2 ^ 12 + b11 * 2 ^ 20) lo (bit_or (hi * 2 ^ 12) (b11 * 2 ^ 20))
        (lo * 2 ^ 21) (omega (arith, p1, p2)) (omega (arith, p1, p2)) (omega arith) (omega arith) in
    let p4 =
      bit_or_add 1 31 0 (hi * 2 ^ 12 + b11 * 2 ^ 20 + lo * 2 ^ 21) b20
        (bit_or (bit_or (hi * 2 ^ 12) (b11 * 2 ^ 20)) (lo * 2 ^ 21)) (b20 * 2 ^ 31)
        (omega (arith, p1, p2, p3)) (omega (arith, p1, p2, p3)) (omega arith) (omega arith) in
    let p5 =
      bit_or_add 20 12 0 (op + d * 2 ^ 7) (hi + b11 * 2 ^ 8 + lo * 2 ^ 9 + b20 * 2 ^ 19)
        (bit_or op (d * 2 ^ 7))
        (bit_or (bit_or (bit_or (hi * 2 ^ 12) (b11 * 2 ^ 20)) (lo * 2 ^ 21)) (b20 * 2 ^ 31))
        (omega (arith, p1, p2, p3, p4)) (omega (arith, p1, p2, p3, p4)) (omega arith)
        (omega arith) in
    omega (arith, p1, p2, p3, p4, p5)

pub r_type_lem :
    (op f3 f7 rd rs1 rs2 : ℕ)
    → op < 128
    → f3 < 8
    → f7 < 128
    → r_type op f3 f7 rd rs1 rs2
      ≡ op + rd % 32 * 2 ^ 7 + f3 * 2 ^ 12 + rs1 % 32 * 2 ^ 15 + rs2 % 32 * 2 ^ 20 + f7 * 2 ^ 25
unfolding r_type
r_type_lem op f3 f7 rd rs1 rs2 h1 h2 h3 =
    rw (bit_and_ones 5 rd, bit_and_ones 5 rs1, bit_and_ones 5 rs2)
      (r_parts (rd % 32) (rs1 % 32) (rs2 % 32) op f3 f7 (omega arith) (omega arith) (omega arith) h1
        h2 h3)

pub shift_type_lem :
    (f3 f6 rd rs1 shamt : ℕ)
    → f3 < 8
    → f6 < 64
    → shift_type f3 (f6 * 2) rd rs1 shamt
      ≡ 19 + rd % 32 * 2 ^ 7 + f3 * 2 ^ 12 + rs1 % 32 * 2 ^ 15 + shamt % 64 * 2 ^ 20 + f6 * 2 ^ 26
unfolding shift_type
shift_type_lem f3 f6 rd rs1 shamt h1 h2 =
    let e : f6 * 2 * 2 ^ 25 ≡ f6 * 2 ^ 26 = omega arith in
    rw (bit_and_ones 5 rd, bit_and_ones 5 rs1, bit_and_ones 6 shamt, e)
      (shift_parts (rd % 32) (rs1 % 32) (shamt % 64) 19 f3 f6 (omega arith) (omega arith)
        (omega arith) (omega arith) h1 h2)

pub i_type_lem :
    (op f3 rd rs1 imm : ℕ)
    → op < 128
    → f3 < 8
    → i_type op f3 rd rs1 imm
      ≡ op + rd % 32 * 2 ^ 7 + f3 * 2 ^ 12 + rs1 % 32 * 2 ^ 15 + imm % 4096 * 2 ^ 20
unfolding i_type
i_type_lem op f3 rd rs1 imm h1 h2 =
    rw (bit_and_ones 5 rd, bit_and_ones 5 rs1, bit_and_ones 12 imm)
      (i_parts (imm % 4096) (rd % 32) (rs1 % 32) op f3 (omega arith) (omega arith) (omega arith) h1
        h2)

pub s_type_lem :
    (op f3 rs1 rs2 imm : ℕ)
    → op < 128
    → f3 < 8
    → s_type op f3 rs1 rs2 imm
      ≡ op
        + imm % 32 * 2 ^ 7
        + f3 * 2 ^ 12
        + rs1 % 32 * 2 ^ 15
        + rs2 % 32 * 2 ^ 20
        + imm / 32 % 128 * 2 ^ 25
unfolding s_type
s_type_lem op f3 rs1 rs2 imm h1 h2 =
    let e : bit_and imm (127 * 2 ^ 5) * 2 ^ 20 ≡ imm / 32 % 128 * 2 ^ 25 =
      omega (arith, bit_and_field 7 5 imm) in
    rw (bit_and_ones 5 rs1, bit_and_ones 5 rs2, bit_and_ones 5 imm, e)
      (s_parts (imm % 32) (imm / 32 % 128) (rs1 % 32) (rs2 % 32) op f3 (omega arith) (omega arith)
        (omega arith) (omega arith) h1 h2)

pub lui_lem : (rd imm : ℕ) → lui rd imm ≡ 55 + rd % 32 * 2 ^ 7 + imm / 2 ^ 12 % 2 ^ 20 * 2 ^ 12
unfolding lui
lui_lem rd imm =
    rw (bit_and_ones 5 rd, bit_and_field 20 12 imm)
      (u_parts (imm / 2 ^ 12 % 2 ^ 20) (rd % 32) 55 (omega arith) (omega arith) (omega arith))

pub b_type_lem :
    (f3 rs1 rs2 imm : ℕ)
    → f3 < 8
    → b_type f3 rs1 rs2 imm
      ≡ 99
        + imm / 2 ^ 11 % 2 * 2 ^ 7
        + imm / 2 % 16 * 2 ^ 8
        + f3 * 2 ^ 12
        + rs1 % 32 * 2 ^ 15
        + rs2 % 32 * 2 ^ 20
        + imm / 32 % 64 * 2 ^ 25
        + imm / 2 ^ 12 % 2 * 2 ^ 31
unfolding b_type
b_type_lem f3 rs1 rs2 imm h =
    let e1 : bit_and imm 30 * 2 ^ 7 ≡ imm / 2 % 16 * 2 ^ 8 = omega (arith, bit_and_field 4 1 imm) in
    let e2 : bit_and imm (2 ^ 11) / 2 ^ 4 ≡ imm / 2 ^ 11 % 2 * 2 ^ 7 =
      omega (arith, bit_and_field 1 11 imm) in
    let e3 : bit_and imm (63 * 2 ^ 5) * 2 ^ 20 ≡ imm / 32 % 64 * 2 ^ 25 =
      omega (arith, bit_and_field 6 5 imm) in
    let e4 : bit_and imm (2 ^ 12) * 2 ^ 19 ≡ imm / 2 ^ 12 % 2 * 2 ^ 31 =
      omega (arith, bit_and_field 1 12 imm) in
    rw (bit_and_ones 5 rs1, bit_and_ones 5 rs2, e1, e2, e3, e4)
      (b_parts (imm / 2 % 16) (imm / 2 ^ 11 % 2) (imm / 32 % 64) (imm / 2 ^ 12 % 2) (rs1 % 32)
        (rs2 % 32) 99 f3 (omega arith) (omega arith) (omega arith) (omega arith) (omega arith)
        (omega arith) (omega arith) h)

pub jal_lem :
    (rd imm : ℕ)
    → jal rd imm
      ≡ 111
        + rd % 32 * 2 ^ 7
        + imm / 2 ^ 12 % 256 * 2 ^ 12
        + imm / 2 ^ 11 % 2 * 2 ^ 20
        + imm / 2 % 1024 * 2 ^ 21
        + imm / 2 ^ 20 % 2 * 2 ^ 31
unfolding jal
jal_lem rd imm =
    let e1 : bit_and imm (255 * 2 ^ 12) ≡ imm / 2 ^ 12 % 256 * 2 ^ 12 =
      omega (arith, bit_and_field 8 12 imm) in
    let e2 : bit_and imm (2 ^ 11) * 2 ^ 9 ≡ imm / 2 ^ 11 % 2 * 2 ^ 20 =
      omega (arith, bit_and_field 1 11 imm) in
    let e3 : bit_and imm 2046 * 2 ^ 20 ≡ imm / 2 % 1024 * 2 ^ 21 =
      omega (arith, bit_and_field 10 1 imm) in
    let e4 : bit_and imm (2 ^ 20) * 2 ^ 11 ≡ imm / 2 ^ 20 % 2 * 2 ^ 31 =
      omega (arith, bit_and_field 1 20 imm) in
    rw (bit_and_ones 5 rd, e1, e2, e3, e4)
      (j_parts 111 (rd % 32) (imm / 2 ^ 12 % 256) (imm / 2 ^ 11 % 2) (imm / 2 % 1024)
        (imm / 2 ^ 20 % 2) (omega arith) (omega arith) (omega arith) (omega arith) (omega arith)
        (omega arith))
