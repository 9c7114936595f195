-- ===== src/Ir/Builder/Variables.antt =====
-- Variables within a block.
use colang.Prelude.{
  ℕ, suc, ◌≡◌, ◌≢◌, refl, ◌∙◌, true, false, none, some, arith, if◌then◌else◌, ◌==◌, Bool-cases, inl,
  inr,
}
use colang.Util.HashMap.{map_get, bucket_of, bucket_set}
use colang.Util.HashMap.Map.{IsMap, map_get-map_set}
use colang.Ir.Builder.{Builder, is_current, var_write, var_read}

module _ (hash : ℕ → ℕ) (op_nil void : ℕ) where
  -- A name that the current block has is read from it, and the builder is left alone.
  known :
      (u : Builder) (name b v : ℕ)
      → is_current u.b b ≡ true
      → v ≢ 0
      → map_get hash u.vars name ≡ v
      → var_read hash op_nil void u name b ≡ some (u, v)
  unfolding var_read
  known u name b v here ne e =
      let there : (v == 0) ≡ false = ground arith in rw (var_read, here, e, there) refl

  -- In the current block, with a map of variables in order that has room, with names and values
  -- that are not NULL, var_write returns, and var_read in the same block then gives the value for
  -- the name that was written, and for another name with a value that value, and changes nothing.
  pub var_read-var_write :
      (fuel : ℕ) (u : Builder) (name other value old b : ℕ)
      → IsMap hash u.vars
      → u.b ≡ some b
      → name ≢ 0
      → other ≢ 0
      → value ≢ 0
      → bucket_set (bucket_of hash u.vars name) name value ≢ none
      → old ≢ 0
      → ((name == other) ≡ false → map_get hash u.vars other ≡ old)
      → (u' : Builder) × (var_write hash (suc fuel) u name value b ≡ some u')
        × (var_read hash op_nil void u' other b ≡ some (u', if name == other then value else old))
  unfolding var_write
  var_read-var_write fuel u name other value old b is_map current hn ho hv room hold had =
      let (r, set_ok, reads) =
        map_get-map_set hash fuel u.vars name other value is_map hn ho hv room in
      let here : is_current u.b b ≡ true = rw current (ground arith) in
      (
        record u { vars = r.0 },
        rw (var_write, here, set_ok) refl,
        known (record u { vars = r.0 }) other b (if name == other then value else old) here
            (elim (Bool-cases (name == other)) [ inl e ↦ rw e hv | inr e ↦ rw e hold ])
            (reads
              ∙ elim (Bool-cases (name == other)) [ inl e ↦ rw e refl | inr e ↦ rw e (had e) ]),
      )
