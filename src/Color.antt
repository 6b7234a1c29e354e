-- ===== src/Color.antt =====
-- src/ceres/color.c: colours 0x00RRGGBB, in integer arithmetic. Arguments are the non-negative ones.
pub mod Round
mod Tests
use ceres_standard_library.Prelude.{
  ℕ, ◌+◌, ◌-◌, ◌*◌, ◌/◌, ◌%◌, bit_and, bit_or, mul32, ltb, ◌==◌, if◌then◌else◌, ◌<<◌, ◌>>◌, List,
  [], ◌∷◌,
}

pub div255r : ℕ → ℕ
div255r x = let t = x + 127 in (t + (t >> 8) + 1) >> 8

pub mul255 : ℕ → ℕ → ℕ
mul255 a b = div255r (a * b)

pub clamp255 : ℕ → ℕ
clamp255 v = if ltb 255 v then 255 else v

-- the macros of include/ceres/color.h
pub rgb : ℕ → ℕ → ℕ → ℕ
rgb r g b = bit_or (bit_or (r << 16) (g << 8)) b

pub col_r : ℕ → ℕ
col_r c = bit_and (c >> 16) 255

pub col_g : ℕ → ℕ
col_g c = bit_and (c >> 8) 255

pub col_b : ℕ → ℕ
col_b c = bit_and c 255

pub color_hsv : ℕ → ℕ → ℕ → ℕ
unfolding rgb mul255 div255r clamp255
color_hsv hue saturation value =
    let s = clamp255 saturation in
    let v = clamp255 value in
    let h = hue % 360 in
    let sector = h / 60 in
    let frac = (h % 60 * 255 + 30) / 60 in
    let p = mul255 v (255 - s) in
    let q = mul255 v (255 - mul255 s frac) in
    let t = mul255 v (255 - mul255 s (255 - frac)) in
    if sector == 0
    then rgb v t p
    else if sector == 1
    then rgb q v p
    else if sector == 2
    then rgb p v t
    else if sector == 3
    then rgb p q v
    else if sector == 4
    then rgb t p v
    else rgb v p q

pub lerp_channel : ℕ → ℕ → ℕ → ℕ
unfolding div255r
lerp_channel a b t = div255r (a * (255 - t) + b * t)

pub color_lerp : ℕ → ℕ → ℕ → ℕ
unfolding rgb col_r col_g col_b clamp255 lerp_channel
color_lerp a b amount =
    let t = clamp255 amount in
    rgb (lerp_channel (col_r a) (col_r b) t) (lerp_channel (col_g a) (col_g b) t)
      (lerp_channel (col_b a) (col_b b) t)

pub color_blend : ℕ → ℕ → ℕ → ℕ
unfolding color_lerp
color_blend dst src alpha = color_lerp dst src alpha

pub color_scale : ℕ → ℕ → ℕ
unfolding rgb col_r col_g col_b clamp255
color_scale c factor =
    rgb (clamp255 (mul32 (col_r c) factor >> 8)) (clamp255 (mul32 (col_g c) factor >> 8))
      (clamp255 (mul32 (col_b c) factor >> 8))
