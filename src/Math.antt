-- ===== src/Math.antt =====
-- src/math/number_theory.cpp and include/primechain/math/number_theory.hpp: the arithmetic that a
-- record's proof is checked by. A PrimeValue is a number below 2 ^ 64; each operation that can
-- leave that range writes its wrap-around out.
pub mod Divides
pub mod Prime
pub mod Composite
pub mod Modular
pub mod Gcd
pub mod Factorization
pub mod Pratt
