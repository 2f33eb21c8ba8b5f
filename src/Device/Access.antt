-- ===== src/Device/Access.antt =====
-- What a device gets without its token, and what `setPending` with the action "none" does
-- (backend/src/device/device-commands.service.ts and device.controller.ts).
use parking_gate_remote.Common.{
  ℕ, String, ◌≡◌, ◌∙◌, ◌↔◌, ◌≤◌, refl, ap, subst, Bool, true, false, Option, none, some, List, [],
  ◌∷◌, ◌==◌, ◌&&◌, arith, eq_iff, eq_refl, inl, inr, select, reject, Bool-cases, Option-cases, any,
}
use parking_gate_remote.Common.Http.{is_ok}
use parking_gate_remote.Mongo.{Mongo}
use parking_gate_remote.Device.{
  nothing, Command, Answer, for_device, has_id, is_live, set_pending, consume_pending, tokens,
  check_token, get_device_token, assert_device_auth,
}
use parking_gate_remote.Device.Delivery.{IsAnswer, IsNewest-known, consume_pending-IsAnswer}
use Prim.Native.String.{count}

long_not_empty : (t : String) → 8 ≤ count t → t == "" ≡ false
long_not_empty t le = elim (Bool-cases (t == "")) [
  | inl y ↦ absurd (no (subst (λ s. 8 ≤ count s) ((eq_iff t "").0 y) le))
  | inr n ↦ n
]
  where
    no : ¬ (8 ≤ 0)
    no h = omega (arith, h)

-- A device is let in just when its entry in the map has at least eight characters and is the
-- token that it sends.
pub assert_device_auth_iff :
    (m : String → Option String) (device_id token : String)
    → (is_ok (assert_device_auth (tokens m) device_id token) ≡ true)
      ↔ ((m device_id ≡ some token) × (8 ≤ count token))
unfolding assert_device_auth get_device_token check_token
assert_device_auth_iff m device_id token = (
  λ h. elim (Option-cases (m device_id)) [
    | inl n ↦ ground (arith, n, h)
    | inr (t, y) ↦ ground (arith, y, h, eq_iff token t)
  ],
  λ (y, le). ground (arith, y, le, long_not_empty token le, eq_refl token),
)

none_live :
    (device_id : String) (now : ℕ) (q : Command → Bool) (ds : List Command)
    → any (λ e. is_live device_id now e && q e) (reject (for_device device_id) ds) ≡ false
none_live device_id now q [] = refl
none_live device_id now q (d ∷ ds) = ground (arith, none_live device_id now q ds)

others_stay :
    (device_id other : String) (ds : List Command)
    → device_id == other ≡ false
    → select (for_device other) (reject (for_device device_id) ds) ≡ select (for_device other) ds
others_stay device_id other [] ne = refl
others_stay device_id other (d ∷ ds) ne =
    ground (arith, ne, others_stay device_id other ds, eq_iff d.device_id device_id)

module _ (mongo : Mongo) where
  IsAnswer-none :
      (device_id : String) (now : ℕ) (ds : List Command) (a : Answer)
      → IsAnswer mongo device_id now (reject (for_device device_id) ds) a
      → a ≡ none
  IsAnswer-none device_id now ds none h = refl
  IsAnswer-none device_id now ds (some d) newest = ground (
    arith,
    IsNewest-known mongo device_id now (reject (for_device device_id) ds) d newest,
    none_live device_id now (has_id d.id) ds,
  )

  -- After `setPending` with the action "none" a poll of this device gets no command, and the
  -- documents of every other device are as before.
  pub clear_pending_lem :
      (device_id other : String) (reason : Option String) (ttl_seconds : Option ℕ) (id : String)
      (t now : ℕ) (ds : List Command)
      → device_id == other ≡ false
      → ((consume_pending mongo device_id now
            (set_pending mongo device_id nothing reason ttl_seconds id t ds)).0
          ≡ none)
        × (select
              (for_device other)
              (set_pending mongo device_id nothing reason ttl_seconds id t ds)
            ≡ select (for_device other) ds)
  unfolding set_pending
  clear_pending_lem device_id other reason ttl_seconds id t now ds ne = (
    IsAnswer-none device_id now ds
        ((consume_pending mongo device_id now
          (mongo.delete_many Command (for_device device_id) ds)).0)
        (subst
          (λ ds'. IsAnswer mongo device_id now ds' (
            (consume_pending mongo device_id now
              (mongo.delete_many Command (for_device device_id) ds)).0))
          (mongo.delete_many_lem Command (for_device device_id) ds)
          (consume_pending-IsAnswer mongo device_id now
            (mongo.delete_many Command (for_device device_id) ds))),
    ap (select (for_device other)) (mongo.delete_many_lem Command (for_device device_id) ds)
        ∙ others_stay device_id other ds ne,
  )
