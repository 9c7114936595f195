-- ===== src/Util/Sym/Header.antt =====
-- sym.h: the length word of a symbol's header, with the flags above the length.
use colang.Prelude.{ℕ, ◌%◌, ◌^◌, ◌<◌, ◌≡◌, arith}
use colang.Prelude.BitOr.{or_disjoint}
use colang.Util.Sym.{sym_makelen, symlen, symflags, with_flags}

-- The length word that SYM_MAKELEN makes holds the length, cut to 27 bits, and the flags, cut to
-- 5.
pub sym_makelen-fields :
    (len flags : ℕ)
    → (symlen (sym_makelen len flags) ≡ len % 2 ^ 27)
      × (symflags (sym_makelen len flags) ≡ flags % 2 ^ 5)
unfolding symlen symflags sym_makelen
sym_makelen-fields len flags =
    let e = or_disjoint 27 (flags % 2 ^ 5) (len % 2 ^ 27) (omega arith) in
    (omega (arith, e), omega (arith, e))

-- New flags leave the length as it is.
pub with_flags-fields :
    (word flags : ℕ)
    → flags < 2 ^ 5
    → (symlen (with_flags word flags) ≡ symlen word) × (symflags (with_flags word flags) ≡ flags)
unfolding symlen symflags with_flags
with_flags-fields word flags lt =
    let e = or_disjoint 27 (flags % 2 ^ 5) (word % 2 ^ 27) (omega arith) in
    (omega (arith, e), omega (arith, e))
