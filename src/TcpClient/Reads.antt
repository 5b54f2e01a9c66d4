-- ===== src/TcpClient/Reads.antt =====
-- The map of callbacks: who is called for a response.
use rocket_rpc.Common.{
  ℕ, ◌≡◌, refl, ap, ◌∙◌, Bool, true, false, Option, none, some, List, [], ◌∷◌, ◌++◌, if◌then◌else◌,
  Bool-cases, inl, inr, ◌||◌, ◌⊎◌,
}
use rocket_rpc.RpcDispatcher.{same, lookup}
use rocket_rpc.RpcDispatcher.Names.{lookup-assign, same→≡}
use rocket_rpc.TcpClient.{
  TcpClient, erase_key, read_message, cancel_read, take_callback, called_with, run_callback,
  on_message,
}

pub lookup-erase_key {ℓ} :
    {A : Type ℓ} (k : List ℕ) (m : List (List ℕ × A)) → lookup k (erase_key k m) ≡ none
unfolding lookup erase_key
lookup-erase_key k [] = refl
lookup-erase_key k ((j, a) ∷ m) = elim (Bool-cases (same j k)) [
  | inl hit ↦ rw hit (lookup-erase_key k m)
  | inr miss ↦ rw (miss, miss) (lookup-erase_key k m)
]

pub lookup-erase_key_other {ℓ} :
    {A : Type ℓ} (k l : List ℕ) (m : List (List ℕ × A))
    → same k l ≡ false
    → lookup l (erase_key k m) ≡ lookup l m
unfolding lookup erase_key
lookup-erase_key_other k l [] h = refl
lookup-erase_key_other k l ((j, a) ∷ m) h = elim (Bool-cases (same j k)) [
  | inl hit ↦
      let other : same j l ≡ false = rw (same→≡ j k hit) h in
      rw (hit, other) (lookup-erase_key_other k l m h)
  | inr miss ↦ rw miss (ap (λ r. if same j l then some a else r) (lookup-erase_key_other k l m h))
]

-- Which callback waits for an id.
abbrev pub waiting : TcpClient → List ℕ → Option ℕ
waiting c id = lookup id c.read_callbacks

pub waiting-cancel_read : (c : TcpClient) (id : List ℕ) → waiting (cancel_read c id) id ≡ none
unfolding cancel_read
waiting-cancel_read c id = lookup-erase_key id c.read_callbacks

pub waiting-take_callback : (c : TcpClient) (id : List ℕ) → waiting (take_callback c id).1 id ≡ none
unfolding take_callback cancel_read
waiting-take_callback c id = lookup-erase_key id c.read_callbacks

pub waiting-read_message :
    (c : TcpClient) (id : List ℕ) (callback : ℕ)
    → waiting (read_message c id callback) id ≡ some callback
unfolding read_message
waiting-read_message c id callback = lookup-assign id callback c.read_callbacks

-- The callbacks that were called for an id.
pub called_for : List ℕ → List (ℕ × List ℕ) → List ℕ
called_for id [] = []
called_for id ((callback, j) ∷ calls) =
    let rest = called_for id calls in if same j id then callback ∷ rest else rest

pub among : List ℕ → List (List ℕ) → Bool
among id [] = false
among id (j ∷ ids) = same j id || among id ids

called_for-append :
    (id : List ℕ) (a b : List (ℕ × List ℕ))
    → called_for id (a ++ b) ≡ called_for id a ++ called_for id b
unfolding called_for
called_for-append id [] b = refl
called_for-append id ((callback, j) ∷ a) b = elim (Bool-cases (same j id)) [
  | inl hit ↦ rw (hit, called_for-append id a b) refl
  | inr miss ↦ rw (miss, called_for-append id a b) refl
]

called_for-with_same :
    (j id : List ℕ) (o : Option ℕ)
    → same j id ≡ true
    → called_for id (called_with j o) ≡ elim o [ none ↦ [] | some callback ↦ callback ∷ [] ]
unfolding called_for called_with
called_for-with_same j id none h = refl
called_for-with_same j id (some callback) h = rw h refl

called_for-with_other :
    (j id : List ℕ) (o : Option ℕ) → same j id ≡ false → called_for id (called_with j o) ≡ []
unfolding called_for called_with
called_for-with_other j id none h = refl
called_for-with_other j id (some callback) h = rw h refl

module _ (run : ℕ → List ℕ → TcpClient → TcpClient) (id : List ℕ) where
  -- No callback registers `id`, whatever else it does; it may cancel it.
  abbrev pub RegistersNot : Type 0
  RegistersNot =
      (callback : ℕ) (j : List ℕ) (c : TcpClient)
      → (waiting (run callback j c) id ≡ waiting c id) ⊎ (waiting (run callback j c) id ≡ none)

  -- No callback of another id registers or cancels `id`.
  abbrev pub LeavesAlone : Type 0
  LeavesAlone =
      (callback : ℕ) (j : List ℕ) (c : TcpClient)
      → same j id ≡ false
      → waiting (run callback j c) id ≡ waiting c id

  run_callback-none :
      (o : Option ℕ) (j : List ℕ) (c : TcpClient)
      → RegistersNot
      → waiting c id ≡ none
      → waiting (run_callback run o j c) id ≡ none
  unfolding run_callback
  run_callback-none none j c never h = h
  run_callback-none (some callback) j c never h = elim (never callback j c) [
    | inl kept ↦ kept ∙ h
    | inr gone ↦ gone
  ]

  run_callback-alone :
      (o : Option ℕ) (j : List ℕ) (c : TcpClient)
      → LeavesAlone
      → same j id ≡ false
      → waiting (run_callback run o j c) id ≡ waiting c id
  unfolding run_callback
  run_callback-alone none j c alone miss = refl
  run_callback-alone (some callback) j c alone miss = alone callback j c miss

  -- Nobody waits for the id: nobody is called for it, and nobody waits for it afterwards.
  on_message-none :
      (c : TcpClient) (ids : List (List ℕ))
      → RegistersNot
      → waiting c id ≡ none
      → (called_for id (on_message run c ids).0 ≡ []) × (waiting (on_message run c ids).1 id ≡ none)
  unfolding on_message take_callback cancel_read
  on_message-none c [] never h = (unfold called_for in refl, h)
  on_message-none c (j ∷ ids) never h =
      let next = run_callback run (waiting c j) j (cancel_read c j) in
      elim (Bool-cases (same j id)) [
        | inl hit ↦
            let eq : j ≡ id = same→≡ j id hit in
            let ih = on_message-none next ids never (
              run_callback-none (waiting c j) j (cancel_read c j) never
                (rw eq (lookup-erase_key id c.read_callbacks))) in
            (
              called_for-append id (called_with j (waiting c j)) (on_message run next ids).0
                  ∙ rw (called_for-with_same j id (waiting c j) hit, ih.0)
                      (rw (ap (waiting c) eq ∙ h) refl),
              ih.1,
            )
        | inr miss ↦
            let ih = on_message-none next ids never (
              run_callback-none (waiting c j) j (cancel_read c j) never
                (lookup-erase_key_other j id c.read_callbacks miss ∙ h)) in
            (
              called_for-append id (called_with j (waiting c j)) (on_message run next ids).0
                  ∙ rw (called_for-with_other j id (waiting c j) miss) (ih.0),
              ih.1,
            )
      ]

  -- Messages arrive while a callback waits for an id, and the callbacks that are run meanwhile may
  -- change the map, but none of them registers this id anew and none of another id cancels it. When
  -- the id is among the messages, in whatever place and however often, the callback is called
  -- exactly once for it, and nobody waits for the id afterwards; otherwise nobody is called for it
  -- and the callback still waits.
  pub on_message_lem :
      (c : TcpClient) (callback : ℕ) (ids : List (List ℕ))
      → RegistersNot
      → LeavesAlone
      → waiting c id ≡ some callback
      → (called_for id (on_message run c ids).0 ≡ (if among id ids then callback ∷ [] else []))
        × (waiting (on_message run c ids).1 id ≡ (if among id ids then none else some callback))
  unfolding on_message take_callback cancel_read among
  on_message_lem c callback [] never alone h = (unfold called_for in refl, h)
  on_message_lem c callback (j ∷ ids) never alone h =
      let next = run_callback run (waiting c j) j (cancel_read c j) in
      elim (Bool-cases (same j id)) [
        | inl hit ↦
            let eq : j ≡ id = same→≡ j id hit in
            let ih = on_message-none next ids never (
              run_callback-none (waiting c j) j (cancel_read c j) never
                (rw eq (lookup-erase_key id c.read_callbacks))) in
            (
              called_for-append id (called_with j (waiting c j)) (on_message run next ids).0
                  ∙ rw (called_for-with_same j id (waiting c j) hit, ih.0, hit)
                      (rw (ap (waiting c) eq ∙ h) refl),
              rw hit (ih.1),
            )
        | inr miss ↦
            let ih = on_message_lem next callback ids never alone (
              run_callback-alone (waiting c j) j (cancel_read c j) alone miss
              ∙ lookup-erase_key_other j id c.read_callbacks miss
              ∙ h) in
            (
              called_for-append id (called_with j (waiting c j)) (on_message run next ids).0
                  ∙ rw (called_for-with_other j id (waiting c j) miss, miss) (ih.0),
              rw miss (ih.1),
            )
      ]
