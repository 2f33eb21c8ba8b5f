-- ===== src/Gate/Messages/Bounds.antt =====
-- What the messages of the microcontroller leave in the two collections, whatever they carry
-- (`handleMessage` of backend/src/gate/mqtt-gate-device.service.ts).
use parking_gate_remote.Common.{
  ℕ, zero, suc, ◌≤◌, String, ◌≡◌, refl, ap, sym, subst, Bool, true, false, Option, none, some, List,
  [], ◌∷◌, ◌++◌, ◌&&◌, map, select, every, length, take, length-take-le, leb, arith,
}
use parking_gate_remote.Common.Json.{
  Json, null, boolean, number, text, array, object, text_of, elements_of, field,
}
use parking_gate_remote.Mongo.{Mongo}
use parking_gate_remote.Gate.Messages.{
  DiagnosticLogEntry, DeviceDiagnosticLog, slice, is_entry, level_to_string, short, to_entry,
  valid_entries, make_log, to_log, store_log, with_entries, handle_diagnostics_message,
}
use Prim.Native.String.{count}

abbrev fits : ℕ → Option String → Bool
fits n none = true
fits n (some s) = leb (count s) n

abbrev entry_bounded : DiagnosticLogEntry → Bool
entry_bounded e = leb (count e.level) 16 && leb (count e.event) 64 && fits 256 e.message

abbrev pub log_bounded : DeviceDiagnosticLog → Bool
log_bounded l =
    leb (count l.device_id) 128
    && fits 64 l.session_id
    && fits 32 l.fw_version
    && leb 1 (length l.entries)
    && leb (length l.entries) 100
    && every entry_bounded l.entries

count-slice : (n : ℕ) (s : String) → count (slice n s) ≤ n
count-slice zero s = omega (arith, Prim.Native.String.count.nil)
count-slice (suc n) String.[] = omega (arith, Prim.Native.String.count.nil)
count-slice (suc n) (String.◌∷◌ c s) =
    omega (arith, Prim.Native.String.count.cons c (slice n s), count-slice n s)

leb-slice : (n : ℕ) (s : String) → leb (count (slice n s)) n ≡ true
leb-slice n s = ground (arith, count-slice n s)

length-select : {A : Type 0} (p : A → Bool) (xs : List A) → length (select p xs) ≤ length xs
length-select p [] = omega arith
length-select p (x ∷ xs) = ground (arith, length-select p xs)

length-map : {A B : Type 0} (f : A → B) (xs : List A) → length (map f xs) ≡ length xs
length-map f [] = refl
length-map f (x ∷ xs) = ap suc (length-map f xs)

every-append :
    {A : Type 0} (p : A → Bool) (xs ys : List A)
    → every p xs ≡ true
    → every p ys ≡ true
    → every p (xs ++ ys) ≡ true
every-append p [] ys h k = k
every-append p (x ∷ xs) ys h k = ground (arith, every-append p xs ys)

module _ (to_text : Option Json → String) where
  short-fits : (n : ℕ) (v : Option Json) → fits n (short to_text n v) ≡ true
  short-fits n none = refl
  short-fits n (some null) = refl
  short-fits n (some (boolean b)) = leb-slice n (to_text (some (boolean b)))
  short-fits n (some (number z)) = leb-slice n (to_text (some (number z)))
  short-fits n (some (text s)) = leb-slice n (to_text (some (text s)))
  short-fits n (some (array js)) = leb-slice n (to_text (some (array js)))
  short-fits n (some (object fs)) = leb-slice n (to_text (some (object fs)))

  to_entry-bounded : (j : Json) → entry_bounded (to_entry to_text j) ≡ true
  to_entry-bounded j = ground (
    arith,
    leb-slice 16 (level_to_string to_text (field "level" j)),
    leb-slice 64 (to_text (field "event" j)),
    short-fits 256 (field "message" j),
  )

  map-bounded : (js : List Json) → every entry_bounded (map (to_entry to_text) js) ≡ true
  map-bounded [] = refl
  map-bounded (j ∷ js) = ground (arith, to_entry-bounded j, map-bounded js)

  valid_entries-length : (js : List Json) → length (valid_entries to_text js) ≤ 100
  valid_entries-length js = omega (
    arith,
    length-map (to_entry to_text) (select is_entry (take 100 js)),
    length-select is_entry (take 100 js),
    length-take-le 100 js,
  )

  to_log-bounded :
      (device_id : String) (now : ℕ) (body : Json) (e : DiagnosticLogEntry)
      (es : List DiagnosticLogEntry)
      → length (e ∷ es) ≤ 100
      → every entry_bounded (e ∷ es) ≡ true
      → log_bounded (to_log to_text device_id now body (e ∷ es)) ≡ true
  to_log-bounded device_id now body e es = ground (
    arith,
    leb-slice 128 device_id,
    short-fits 64 (field "sessionId" body),
    short-fits 32 (field "fwVersion" body),
  )

  module _ (mongo : Mongo) where
    store_log-bounded :
        (unwritten : Bool) (l : DeviceDiagnosticLog) (ls : List DeviceDiagnosticLog)
        → log_bounded l ≡ true
        → every log_bounded ls ≡ true
        → every log_bounded (store_log mongo unwritten l ls) ≡ true
    store_log-bounded true l ls h k = k
    store_log-bounded false l ls h k =
        subst (λ xs. every log_bounded xs ≡ true) (sym (mongo.insert_lem DeviceDiagnosticLog l ls))
          (every-append log_bounded ls (l ∷ []) k (ground (arith, h)))

    made-bounded :
        (unwritten : Bool) (now : ℕ) (body : Json) (device_id : String)
        (es : List DiagnosticLogEntry) (ls : List DeviceDiagnosticLog)
        → length es ≤ 100
        → every entry_bounded es ≡ true
        → every log_bounded ls ≡ true
        → every log_bounded (make_log to_text mongo unwritten now body device_id es ls) ≡ true
    made-bounded unwritten now body device_id [] ls h k w = w
    made-bounded unwritten now body device_id (e ∷ es) ls h k w = ground (
      arith,
      store_log-bounded unwritten (to_log to_text device_id now body (e ∷ es)) ls
          (to_log-bounded device_id now body e es h k) w,
    )

    with_entries-bounded :
        (unwritten : Bool) (now : ℕ) (body : Json) (d : Option String) (es : Option (List Json))
        (ls : List DeviceDiagnosticLog)
        → every log_bounded ls ≡ true
        → every log_bounded (with_entries to_text mongo unwritten now body d es ls) ≡ true
    with_entries-bounded unwritten now body none es ls w = w
    with_entries-bounded unwritten now body (some d) none ls w = w
    with_entries-bounded unwritten now body (some d) (some js) ls w =
        made-bounded unwritten now body d (valid_entries to_text js) ls (valid_entries-length js)
          (map-bounded (select is_entry (take 100 js))) w

    pub handle_diagnostics_message-bounded :
        (unwritten : Bool) (now : ℕ) (body : Json) (ls : List DeviceDiagnosticLog)
        → every log_bounded ls ≡ true
        → every log_bounded (handle_diagnostics_message to_text mongo unwritten now body ls) ≡ true
    unfolding handle_diagnostics_message
    handle_diagnostics_message-bounded unwritten now body ls =
        with_entries-bounded unwritten now body (text_of (field "deviceId" body))
          (elements_of (field "entries" body)) ls
