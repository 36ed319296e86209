-- ===== src/Float/Examples.antt =====
-- A machine for the examples of the other modules: each operation picks one of its operands.
use pomaisearch.Float.{Arithmetic}

abbrev pub machine : Arithmetic
machine = record {
  add = λ x y. y;
  sub = λ x y. x;
  mul = λ x y. y;
  div = λ x y. x;
  sqrt = λ x. x;
  log = λ x. x;
  of_nat = λ n. n;
}
