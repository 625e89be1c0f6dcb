-- ===== src/Work/Fixed.antt =====
-- Numbers of 9 decimal places, for the operations of `double` in concrete runs.
use chronos_project.Base.{◌+◌, ◌*◌, ◌/◌, ◌^◌}
use chronos_project.Base.Int.{ℤ, pos, pos_part, ◌+ℤ◌, ◌-ℤ◌, ◌*ℤ◌, ltb_ℤ, leb_ℤ}
use chronos_project.Options.{eq_ℤ}
use chronos_project.Slope.{Floats}
use chronos_project.Work.Timer.{Doubles}

abbrev pub fixed : Floats ℤ
fixed = record {
  less = λ a b. ltb_ℤ a b;
  less_equal = λ a b. leb_ℤ a b;
  of_long = λ z. z *ℤ (10 ^ 9);
  add = λ a b. a +ℤ b;
  sub = λ a b. a -ℤ b;
  mul = λ a b. pos (pos_part a * pos_part b / 10 ^ 9);
  div = λ a b. pos (pos_part a * 10 ^ 9 / pos_part b);
  printed = λ a. pos ((pos_part a + 500) / 10 ^ 3 * 10 ^ 3);
}

abbrev pub fixed_doubles : Doubles ℤ
fixed_doubles = record {
  equal = λ a b. eq_ℤ a b;
  decimal = λ n k. pos (n * 10 ^ 9 / 10 ^ k);
  to_ulong = λ a. pos_part a / 10 ^ 9;
  to_int = λ a. pos (pos_part a / 10 ^ 9);
}
