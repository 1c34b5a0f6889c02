-- ===== src/Executor/Run/Store.antt =====
-- aqueduct/executor/spark/executor.py: the frame store of a run with the sentinel of a closed
-- gate, `_frame_key`, and how a module reads the frames of the edges into it.
use aqueduct_test.Base.{
  ◌≡◌, refl, String, string_eq, ◌==◌, ◌<>◌, if◌then◌else◌, Option, none, some, List, [], ◌∷◌, arith,
}
use aqueduct_test.Parser.Models.{Edge}

-- A dict with text keys: `d[key] = value`, and `d.get(key)`.
module _ {A : Type 0} where
  unfoldable pub put_at : String → A → List (String × A) → List (String × A)
  put_at k v [] = (k, v) ∷ []
  put_at k v ((j, w) ∷ d) = let rest = put_at k v d in if k == j then (j, v) ∷ d else (j, w) ∷ rest

  unfoldable pub get_at : String → List (String × A) → Option A
  get_at k [] = none
  get_at k ((j, w) ∷ d) = let rest = get_at k d in if k == j then some w else rest

  unfoldable pub drop_at : String → List (String × A) → List (String × A)
  drop_at k [] = []
  drop_at k ((j, w) ∷ d) = let rest = drop_at k d in if k == j then d else (j, w) ∷ rest

  pub get_at-put_at :
      (j k : String) (v : A) (d : List (String × A))
      → get_at j (put_at k v d) ≡ (if j == k then some v else get_at j d)
  unfolding put_at get_at
  get_at-put_at j k v [] = refl
  get_at-put_at j k v ((i, w) ∷ d) = ground (arith, get_at-put_at j k v d)

-- What the frame store holds at a key: a DataFrame, or `_GATE_CLOSED`.
pub data Slot (F : Type 0) : Type 0 where
  frame : F → Slot F
  gate_closed : Slot F

abbrev pub Frames : Type 0 → Type 0
Frames F = List (String × Slot F)

unfoldable pub frame_key : String → String → String
frame_key from_id port = if port == "main" then from_id else from_id <> ("." <> port)

-- The tests that follow `frame_store.get`, over all the edges that a module reads: the first gate
-- that is closed or frame that is missing ends the loop. `missing` has the name in the error.
pub data Input (F : Type 0) : Type 0 where
  gated : Input F
  missing : String → Input F
  ready : List (String × F) → Input F

module _ {F : Type 0} (key name : Edge → String) (frames : Frames F) where
  abbrev pub read_slot :
      Option (Slot F) → Edge → (List (String × F) → Input F) → List (String × F) → Input F
  read_slot none e rest upstream = missing (name e)
  read_slot (some gate_closed) e rest upstream = gated
  read_slot (some (frame df)) e rest upstream = rest (put_at (key e) df upstream)

  unfoldable pub gather : List Edge → List (String × F) → Input F
  unfolding get_at put_at
  gather [] upstream = ready upstream
  gather (e ∷ es) upstream = read_slot (get_at (key e) frames) e (gather es) upstream

abbrev pub from_of : Edge → String
from_of e = e.from_id

abbrev pub key_of : Edge → String
key_of e = frame_key e.from_id e.port
