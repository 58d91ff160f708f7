-- ===== src/Costs/Division.antt =====
-- `int * Decimal` and `Decimal / int` of app/services/cost_report.py, in Python's default context.
use structured_data_extracto.Base.{ℕ, zero, suc, ◌+◌, ◌-◌, ◌*◌, ◌/◌, ◌%◌, ◌^◌, eqb, if◌then◌else◌}
use structured_data_extracto.Money.{
  Decimal, magnitude, with_sign, digits_of, precision, round_to_precision,
}

unfoldable pub multiply_by : ℕ → Decimal → Decimal
unfolding round_to_precision
multiply_by n d = round_to_precision (record {
  coefficient = with_sign d.coefficient (n * magnitude d.coefficient);
  scale = d.scale;
})

-- Zeros right of the ideal exponent are dropped from an exact quotient: at most `extra` of them.
unfoldable pub drop_zeros : ℕ → ℕ → ℕ × ℕ
drop_zeros zero q = (0, q)
drop_zeros (suc extra) q =
    let (dropped, q') = drop_zeros extra (q / 10) in
    if eqb (q % 10) 0 then (dropped + 1, q') else (0, q)

-- A positive count divides: enough digits for the precision, the last one off 0 and 5 if the quotient
-- is not exact, and then rounded.
unfoldable pub divide_by : Decimal → ℕ → Decimal
unfolding digits_of round_to_precision drop_zeros
divide_by d n =
    let m = magnitude d.coefficient in
    let shift = digits_of (suc n) n + precision + 1 - digits_of (suc m) m in
    let q = m * 10 ^ shift / n in
    let r = m * 10 ^ shift % n in
    let exact = drop_zeros shift q in
    if eqb m 0
    then record { coefficient = d.coefficient; scale = d.scale }
    else if eqb r 0
    then round_to_precision (record {
      coefficient = with_sign d.coefficient exact.1;
      scale = d.scale + shift - exact.0;
    })
    else round_to_precision (record {
      coefficient = with_sign d.coefficient (if eqb (q % 5) 0 then q + 1 else q);
      scale = d.scale + shift;
    })
