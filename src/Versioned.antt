-- ===== src/Versioned.antt =====
-- The dict that profiles/registry.py and parsers/registry.py both keep: a value stands under its
-- id, where the latest wins, and under "id@version".
use Prim.Native.String.{◌++◌ as joined}
use text.Mathlib.TextLemmas.{append_cancel_left, append-nil, append-eq-nil_iff}
use safe_signal_trader_v.Prelude.{
  String, str_eq, eq_iff, Bool, true, false, [], Option, none, some, ◌≡◌, ◌≢◌, sym, ◌∙◌, arith,
  if◌then◌else◌,
}
use safe_signal_trader_v.Prelude.Eq.{string_eq}
use safe_signal_trader_v.Prelude.Dict
use safe_signal_trader_v.Prelude.Dict.{Dict, get-put, get-put_self}

-- f"{id}@{version}"
unfoldable pub key : String → String → String
key id version = joined id (joined "@" version)

key-ne_id : (id version : String) → key id version ≢ id
unfolding key
key-ne_id id version e =
    let rest : joined "@" version ≡ "" = append_cancel_left id _ _ (e ∙ sym (append-nil id)) in
    cc ((eq_iff "@" "").1 (append-eq-nil_iff.0 rest).0)

key-eq : (id v w : String) → key id v ≡ key id w → v ≡ w
unfolding key
key-eq id v w e = append_cancel_left "@" v w (append_cancel_left id _ _ e)

module _ {ℓ} {V : Type ℓ} where
  unfoldable pub register : String → String → V → Dict String V → Dict String V
  register id version v d = Dict.put id v (Dict.put (key id version) v d)

  -- `get(id, version)`: a version that is `None` or empty asks for the latest
  unfoldable pub find : String → Option String → Dict String V → Option V
  find id none d = Dict.get id d
  find id (some version) d =
      if str_eq version "" then Dict.get id d else Dict.get (key id version) d

  -- A value that was registered is found under its id and under its version; other versions of the
  -- id are found as before.
  pub find-register :
      (id v w : String) (x : V) (d : Dict String V)
      → w ≢ ""
      → (find id none (register id v x d) ≡ some x)
        × (find id (some w) (register id v x d)
            ≡ (if str_eq v w then some x else find id (some w) d))
  unfolding find register
  find-register id v w x d nonempty = (
    get-put_self id x _,
    ground (
      arith,
      eq_iff w "",
      eq_iff v w,
      eq_iff (key id v) (key id w),
      key-eq id v w,
      get-put id (key id w) x (Dict.put (key id v) x d),
      get-put (key id v) (key id w) x d,
      eq_iff id (key id w),
      key-ne_id id w,
    ),
  )

  get_only : (id v k : String) (x y : V) → Dict.get k (register id v x []) ≡ some y → y ≡ x
  unfolding register Dict.get
  get_only id v k x y e =
      ground (arith, get-put id k x (Dict.put (key id v) x []), get-put (key id v) k x [])

  -- Where only one value was registered, no other is found.
  pub find_only :
      (id v k : String) (w : Option String) (x y : V)
      → find k w (register id v x []) ≡ some y
      → y ≡ x
  unfolding find
  find_only id v k none x y e = get_only id v k x y e
  find_only id v k (some w) x y e = found (str_eq w "") e
    where
      found :
          (latest : Bool)
          → (if latest
              then Dict.get k (register id v x [])
              else Dict.get (key k w) (register id v x []))
            ≡ some y
          → y ≡ x
      found true e = get_only id v k x y e
      found false e = get_only id v (key k w) x y e
