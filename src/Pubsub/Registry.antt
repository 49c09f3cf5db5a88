-- ===== src/Pubsub/Registry.antt =====
-- The bus of pkg/pubsub/bus.go: the subscriptions by topic. A handle is the place of a subscription
-- among all that were made, `store`; the closures of `Subscribe` know its topic.
use gkit_go.Prelude.{
  ℕ, zero, suc, Bool, Option, none, some, List, [], ◌∷◌, ◌++◌, true, false, length, ◌==◌, ltb,
  if◌then◌else◌, Assoc, map_get, map_put, get_elem?, ◌>>=◌,
}
use gkit_go.Pubsub.Subscriber.{
  Subscriber, new_subscriber, publish_to, publish_panics, cancel, close, Move, move,
}

-- `Bus`
pub record Bus (K P : Type 0) : Type 0 where
  pub subs : Assoc K (List ℕ)
  pub store : List (Subscriber K P)

-- `NewBus`
unfoldable pub new_bus : {K P : Type 0} → Bus K P
new_bus = record { subs = []; store = [] }

-- The function at one place of a list; a place out of range changes nothing here.
unfoldable pub modify : {A : Type 0} → ℕ → (A → A) → List A → List A
modify i f [] = []
modify zero f (x ∷ xs) = f x ∷ xs
modify (suc i) f (x ∷ xs) = x ∷ modify i f xs

-- The loop of `unsubscribe` over the handlers of a topic.
unfoldable pub remove_first : ℕ → List ℕ → List ℕ
remove_first h [] = []
remove_first h (i ∷ handles) =
    let rest = remove_first h handles in if i == h then handles else i ∷ rest

-- Whether the closure of a handle panics.
abbrev pub panics_at : {K P : Type 0} → P → Option (Subscriber K P) → Bool
panics_at x none = false
panics_at x (some s) = publish_panics x s

-- The loop of `Publish` over the handlers, and whether it ended with a panic of one of them, after
-- which the others get nothing.
unfoldable pub publish_all :
    {K P : Type 0} → P → List ℕ → List (Subscriber K P) → Bool × List (Subscriber K P)
publish_all x [] store = (false, store)
publish_all x (h ∷ handles) store =
    let rest = publish_all x handles (modify h (publish_to x) store) in
    if panics_at x (get_elem? store h) then (true, modify h (publish_to x) store) else rest

module _ {K P : Type 0} (dec : Discrete K) where
  -- `b.subs[topic]`
  unfoldable pub listed : Bus K P → K → List ℕ
  listed b topic = elim (map_get dec b.subs topic) [ none ↦ [] | some handles ↦ handles ]

  -- `Subscribe`, and the handle by which its `unsubscribe` knows it.
  unfoldable pub subscribe : K → (P → Bool) → ℕ → Bus K P → ℕ × Bus K P
  unfolding new_subscriber listed
  subscribe topic accepts buf_size b =
      let h = length b.store in
      (
        h,
        record {
          subs = map_put dec b.subs topic (listed b topic ++ h ∷ []);
          store = b.store ++ new_subscriber topic accepts buf_size ∷ [];
        },
      )

  -- The part of `unsubscribe` under the lock.
  unfoldable pub unlist : K → ℕ → Bus K P → Bus K P
  unfolding remove_first listed
  unlist topic h b = record b { subs = map_put dec b.subs topic (remove_first h (listed b topic)) }

  -- The function that `Subscribe` returns; `none` is the panic of the close, and a handle that was
  -- never given.
  unfoldable pub unsubscribe : ℕ → Bus K P → Option (Bus K P)
  unfolding cancel close modify unlist
  unsubscribe h b = do
    s ← get_elem? b.store h
    s' ← close (cancel s)
    some (record (unlist s.topic h b) { store = modify h (λ r. s') b.store })

  -- `Publish`, with no other goroutine between the copy of the handlers and the last send, and
  -- whether it panicked.
  unfoldable pub publish : K → P → Bus K P → Bool × Bus K P
  unfolding publish_all listed
  publish topic x b =
      let (panicked, store) = publish_all x (listed b topic) b.store in
      (panicked, record b { store = store })

-- A step of a dispatch goroutine.
unfoldable pub move_of : {K P : Type 0} → ℕ → Move → Bus K P → Option (Bus K P)
unfolding move modify
move_of h m b = do
  s ← get_elem? b.store h
  s' ← move m s
  some (record b { store = modify h (λ r. s') b.store })

-- `Topics`, of a map that lists each key once.
unfoldable pub topics : {K : Type 0} → Assoc K (List ℕ) → List K
topics [] = []
topics ((t, handles) ∷ subs) =
    let rest = topics subs in if ltb 0 (length handles) then t ∷ rest else rest

-- What happens to a bus, one whole call or one step of a dispatch goroutine at a time; a publish
-- that panics is taken to be recovered by its caller.
pub data Op (K P : Type 0) : Type 0 where
  subscribing : K → (P → Bool) → ℕ → Op K P
  unsubscribing : ℕ → Op K P
  publishing : K → P → Op K P
  dispatching : ℕ → Move → Op K P

module _ {K P : Type 0} (dec : Discrete K) where
  unfoldable pub apply : Op K P → Bus K P → Option (Bus K P)
  unfolding subscribe unsubscribe publish move_of
  apply (subscribing topic accepts n) b = some (subscribe dec topic accepts n b).1
  apply (unsubscribing h) b = unsubscribe dec h b
  apply (publishing topic x) b = some (publish dec topic x b).1
  apply (dispatching h m) b = move_of h m b

  unfoldable pub apply_all : List (Op K P) → Bus K P → Option (Bus K P)
  unfolding apply
  apply_all [] b = some b
  apply_all (o ∷ ops) b = do b' ← apply o b; apply_all ops b'
