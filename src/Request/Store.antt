-- ===== src/Request/Store.antt =====
-- Reading a store behind a write.
use ngx_http_headers_control.Common.{ℕ, ◌≡◌, ◌≢◌, true, false, ◌==◌, arith}
use ngx_http_headers_control.Request.{write}

pub write_ne :
    {A : Type 0} (memory : ℕ → A) (a b : ℕ) (v : A) → a ≢ b → write memory a v b ≡ memory b
write_ne memory a b v ne = let differs : (b == a) ≡ false = ground arith in rw differs

pub write_self : {A : Type 0} (memory : ℕ → A) (a : ℕ) (v : A) → write memory a v a ≡ v
write_self memory a v = let same : (a == a) ≡ true = ground arith in rw same
