-- ===== src/Discovery/Distinct.antt =====
-- The results of Discovery::Scan in src/discovery/discovery.cpp: each sensor that answered, once.
use Prim.Native.String.{String}
use text.Mathlib.Text.{◌==◌ as str_eq}
use text.Mathlib.TextEquality.{eq_iff}
use afi920_sdk.Prelude.{
  ◌≡◌, refl, sym, ap, ◌∙◌, subst, List, [], ◌∷◌, ◌++◌, Bool, true, false, not, ◌||◌, ◌&&◌, Option,
  none, some, arith, Bool-cases, inl, inr, if_true, if_false,
}
use afi920_sdk.Config.Json.{Json}
use afi920_sdk.Discovery.Info.{SensorInfo}
use afi920_sdk.Discovery.{
  contains, key_of, Found, add_found, scan_answers, scan, ScanAnswer, datagram, failed, timed_out,
  read_datagram,
}

-- No text stands in a list twice.
abbrev pub distinct : List String → Bool
distinct [] = true
distinct (k ∷ ks) = not (contains ks k) && distinct ks

str_eq_comm : (a b : String) → str_eq a b ≡ str_eq b a
str_eq_comm a b = elim (Bool-cases (str_eq a b)) [
  | inl same ↦ let e = (eq_iff a b).0 same in same ∙ sym ((eq_iff b a).1 (sym e))
  | inr other ↦ elim (Bool-cases (str_eq b a)) [
    | inl same ↦ same_other a b other same
    | inr alike ↦ other ∙ sym alike
  ]
]
  where
    same_other : (a b : String) → str_eq a b ≡ false → str_eq b a ≡ true → str_eq a b ≡ str_eq b a
    same_other a b p q = absurd (clash (sym ((eq_iff a b).1 (sym ((eq_iff b a).0 q))) ∙ p))
      where
        clash : true ≡ false → ⊥
        clash e = cc

contains-snoc :
    (ks : List String) (k m : String) → contains (ks ++ (k ∷ [])) m ≡ (contains ks m || str_eq k m)
unfolding contains
contains-snoc [] k m = ground arith
contains-snoc (x ∷ xs) k m = ground (arith, contains-snoc xs k m)

distinct-snoc :
    (ks : List String) (k : String)
    → contains ks k ≡ false
    → distinct ks ≡ true
    → distinct (ks ++ (k ∷ [])) ≡ true
unfolding contains
distinct-snoc [] k c d = refl
distinct-snoc (x ∷ xs) k c d =
    ground (arith, c, d, contains-snoc xs k x, str_eq_comm k x, distinct-snoc xs k)

known_again :
    (seen : List String) (key k : String) (later : Bool)
    → contains seen key ≡ true
    → (contains seen k || later) ≡ (contains seen k || (str_eq key k || later))
known_again seen key k later h = elim (Bool-cases (str_eq key k)) [
  | inl same ↦
      let e = subst (λ t. contains seen t ≡ true) ((eq_iff key k).0 same) h in ground (arith, e)
  | inr other ↦ ground (arith, other)
]

swap_or : (a b c : Bool) → ((a || b) || c) ≡ (b || (a || c))
swap_or a b c = ground arith

or_nothing : (a : Bool) (k : String) → a ≡ (a || contains [] k)
unfolding contains
or_nothing a k = ground arith

module _ (json : Json) where
  abbrev pub keys_of : List (SensorInfo json.Real) → List String
  keys_of [] = []
  keys_of (info ∷ rest) = key_of json info ∷ keys_of rest

  keys_of-snoc :
      (infos : List (SensorInfo json.Real)) (info : SensorInfo json.Real)
      → keys_of (infos ++ (info ∷ [])) ≡ keys_of infos ++ (key_of json info ∷ [])
  keys_of-snoc [] info = refl
  keys_of-snoc (x ∷ xs) info = ap (◌∷◌ (key_of json x)) (keys_of-snoc xs info)

  -- The set has the keys of the results, and no two results have one key.
  record IsIndexed (s : Found json) : Type 0 where
    indexed : (k : String) → contains s.seen k ≡ contains (keys_of s.results) k
    once : distinct (keys_of s.results) ≡ true

  add_found-IsIndexed :
      (s : Found json) (o : Option (SensorInfo json.Real))
      → IsIndexed s
      → IsIndexed (add_found json s o)
  unfolding add_found
  add_found-IsIndexed s none i = i
  add_found-IsIndexed s (some info) i = elim (Bool-cases (contains s.seen (key_of json info))) [
    | inl known ↦ subst IsIndexed (sym (if_true _ _ _ known)) i
    | inr new ↦ subst IsIndexed (sym (if_false _ _ _ new)) (record {
      indexed = λ k.
          unfold contains in
          ground (
            arith,
            i.indexed k,
            ap (λ l. contains l k) (keys_of-snoc s.results info),
            contains-snoc (keys_of s.results) (key_of json info) k,
          );
      once =
          ap distinct (keys_of-snoc s.results info)
          ∙ distinct-snoc (keys_of s.results) (key_of json info)
              (sym (i.indexed (key_of json info)) ∙ new) i.once;
    })
  ]

  scan_answers-IsIndexed :
      (s : Found json) (answers : List (ScanAnswer json))
      → IsIndexed s
      → IsIndexed (scan_answers json s answers)
  unfolding scan_answers
  scan_answers-IsIndexed s [] i = i
  scan_answers-IsIndexed s (timed_out ∷ rest) i = i
  scan_answers-IsIndexed s (failed ∷ rest) i = scan_answers-IsIndexed s rest i
  scan_answers-IsIndexed s (datagram src bytes ∷ rest) i =
      scan_answers-IsIndexed (add_found json s (read_datagram json src bytes)) rest
        (add_found-IsIndexed s (read_datagram json src bytes) i)

  -- The sensors that the datagrams before the timeout tell of, as often as they do.
  heard_one :
      Option (SensorInfo json.Real) → List (SensorInfo json.Real) → List (SensorInfo json.Real)
  heard_one none rest = rest
  heard_one (some info) rest = info ∷ rest

  unfoldable pub heard : List (ScanAnswer json) → List (SensorInfo json.Real)
  unfolding heard_one
  heard [] = []
  heard (timed_out ∷ rest) = []
  heard (failed ∷ rest) = heard rest
  heard (datagram src bytes ∷ rest) = heard_one (read_datagram json src bytes) (heard rest)

  -- What one datagram adds to the set.
  seen-add_found :
      (s : Found json) (o : Option (SensorInfo json.Real)) (rest : List (SensorInfo json.Real))
      (k : String)
      → (contains (add_found json s o).seen k || contains (keys_of rest) k)
        ≡ (contains s.seen k || contains (keys_of (heard_one o rest)) k)
  unfolding add_found heard_one
  seen-add_found s none rest k = refl
  seen-add_found s (some info) rest k = elim (Bool-cases (contains s.seen (key_of json info))) [
    | inl known ↦
        ap (λ (f : Found json). contains f.seen k || contains (keys_of rest) k)
          (if_true _ s _ known)
        ∙ unfold contains in
          known_again s.seen (key_of json info) k (contains (keys_of rest) k) known
    | inr new ↦
        ap (λ (f : Found json). contains f.seen k || contains (keys_of rest) k) (if_false _ s _ new)
        ∙ unfold contains in
          swap_or (str_eq (key_of json info) k) (contains s.seen k) (contains (keys_of rest) k)
  ]

  seen-scan_answers :
      (s : Found json) (answers : List (ScanAnswer json)) (k : String)
      → contains (scan_answers json s answers).seen k
        ≡ (contains s.seen k || contains (keys_of (heard answers)) k)
  unfolding scan_answers heard
  seen-scan_answers s [] k = or_nothing (contains s.seen k) k
  seen-scan_answers s (timed_out ∷ rest) k = or_nothing (contains s.seen k) k
  seen-scan_answers s (failed ∷ rest) k = seen-scan_answers s rest k
  seen-scan_answers s (datagram src bytes ∷ rest) k =
      seen-scan_answers (add_found json s (read_datagram json src bytes)) rest k
      ∙ seen-add_found s (read_datagram json src bytes) (heard rest) k

  -- Scan lists each sensor that answered before the timeout exactly once, by the address its response
  -- came from and its serial number: no two results have one key, and a key is among the results
  -- exactly when a response with it was accepted. However often, and in whatever order, the answers
  -- come. The socket is there and the broadcast was sent.
  pub scan-distinct :
      (answers : List (ScanAnswer json))
      → (distinct (keys_of (scan json true true answers)) ≡ true)
        × ((k : String)
            → contains (keys_of (scan json true true answers)) k
              ≡ contains (keys_of (heard answers)) k)
  unfolding scan
  scan-distinct answers =
      let start : Found json = record { seen = []; results = [] } in
      let i = scan_answers-IsIndexed start answers (record { indexed = λ k. refl; once = refl }) in
      (i.once, λ k. sym (i.indexed k) ∙ unfold contains in seen-scan_answers start answers k)
