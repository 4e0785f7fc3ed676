-- ===== src/Tests/Numbers.antt =====
-- Numbers in the place of `f64`, for small inputs: natural numbers with their exact operations.
use osmgraphing.Prelude.{ℕ, ◌+◌, ◌*◌, ◌-◌, some, compare}
use osmgraphing.Rust.Float.{Float64}

abbrev pub numbers : Float64 ℕ
numbers = record {
  zero = 0;
  infinity = 1000000;
  f64_abs = 1;
  of_usize = λ n. n;
  add = λ a b. a + b;
  sub = λ a b. a - b;
  mul = λ a b. a * b;
  div = λ a b. a;
  round = λ a. a;
  abs = λ a. a;
  partial_cmp = λ a b. some (compare a b);
}
