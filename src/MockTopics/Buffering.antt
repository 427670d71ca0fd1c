-- ===== src/MockTopics/Buffering.antt =====
-- internal/p2p/mock_pubsub.go: what a subscriber gets, against an unbounded queue of all messages.
use mathlib.Core.List.{append_assoc}
use syncmesh.Common.{
  length-append, ◌≡◌, refl, sym, ◌∙◌, ap, ◌+◌, ◌≤◌, ltb, length, Bool, true, false, List, [], ◌∷◌,
  ◌++◌, arith, subst, Bool-cases, inl, inr,
}
use syncmesh.FileSync.State.{Bytes}
use syncmesh.MockTopics.State.{MockSubscription, capacity, offer, cancel, Outcome, Next}

-- The first list is what is left of the second when some elements are dropped.
pub data Subsequence {A : Type 0} : List A → List A → Type 0 where
  done : Subsequence [] []
  keeps : (x : A) {xs ys : List A} → Subsequence xs ys → Subsequence (x ∷ xs) (x ∷ ys)
  drops : (y : A) {xs ys : List A} → Subsequence xs ys → Subsequence xs (y ∷ ys)

module _ {A : Type 0} where
  drops_last : (z : A) {xs ys : List A} → Subsequence xs ys → Subsequence xs (ys ++ z ∷ [])
  drops_last z done = drops z done
  drops_last z (keeps x s) = keeps x (drops_last z s)
  drops_last z (drops y s) = drops y (drops_last z s)

  keeps_last :
      (z : A) {xs ys : List A} → Subsequence xs ys → Subsequence (xs ++ z ∷ []) (ys ++ z ∷ [])
  keeps_last z done = keeps z done
  keeps_last z (keeps x s) = keeps x (keeps_last z s)
  keeps_last z (drops y s) = drops y (keeps_last z s)

-- A subscription, with what its reader has taken and what was published since it subscribed.
pub record Run : Type 0 where
  pub sub : MockSubscription
  pub taken : List Bytes
  pub published : List Bytes

-- A message is published, the reader takes one by Next, or the subscription is cancelled, as it is
-- when its topic is closed.
pub data Move (r : Run) : Run → Type 0 where
  publishes :
      (message : Bytes)
      → Move r (record r { sub = offer message r.sub; published = r.published ++ message ∷ [] })
  takes :
      (context_is_done : Bool) (message : Bytes) (after_it : MockSubscription)
      → Next context_is_done r.sub (Outcome.received message) after_it
      → Move r (record r { sub = after_it; taken = r.taken ++ message ∷ [] })
  cancels : Move r (record r { sub = cancel r.sub })

pub data Moves (r : Run) : Run → Type 0 where
  start : Moves r r
  next : {u v : Run} → Moves r u → Move u v → Moves r v

-- The channel holds at most ten messages; what was taken and what waits is, in this order, part of
-- what was published, and all of it as long as no more than ten messages were published.
pub record Refines (r : Run) : Type 0 where
  pub bounded : length r.sub.channel ≤ capacity
  pub ordered : Subsequence (r.taken ++ r.sub.channel) r.published
  pub complete : length r.published ≤ capacity → r.taken ++ r.sub.channel ≡ r.published

module _ (message : Bytes) (r : Run) (v : Refines r) where
  offered :
      ltb (length r.sub.channel) capacity ≡ true
      → offer message r.sub ≡ record r.sub { channel = r.sub.channel ++ message ∷ [] }
  unfolding offer
  offered room = rw room refl

  refused : ltb (length r.sub.channel) capacity ≡ false → offer message r.sub ≡ r.sub
  unfolding offer
  refused full = rw full refl

  shorter : length (r.published ++ message ∷ []) ≤ capacity → length r.published + 1 ≤ capacity
  shorter h = ground (arith, length-append r.published (message ∷ []))

  full_is_late :
      ltb (length r.sub.channel) capacity ≡ false
      → ¬ (length (r.published ++ message ∷ []) ≤ capacity)
  full_is_late full h = ground (
    arith,
    shorter h,
    length-append r.taken r.sub.channel,
    ap (λ (l : List Bytes). length l) (v.complete (omega (arith, shorter h))),
  )

  offer-Refines :
      Refines (record r { sub = offer message r.sub; published = r.published ++ message ∷ [] })
  offer-Refines = elim (Bool-cases (ltb (length r.sub.channel) capacity)) [
    | inl room ↦ rw (offered room) (record {
      bounded = ground (arith, length-append r.sub.channel (message ∷ []));
      ordered =
          subst (λ (l : List Bytes). Subsequence l (r.published ++ message ∷ []))
            (append_assoc r.taken r.sub.channel (message ∷ [])) (keeps_last message v.ordered);
      complete = λ h.
          sym (append_assoc r.taken r.sub.channel (message ∷ []))
          ∙ ap (λ (l : List Bytes). l ++ message ∷ []) (v.complete (omega (arith, shorter h)));
    })
    | inr full ↦ rw (refused full) (record {
      bounded = v.bounded;
      ordered = drops_last message v.ordered;
      complete = λ h. absurd (full_is_late full h);
    })
  ]

Next-Refines :
    {d : Bool} {message : Bytes} {after_it : MockSubscription} (r : Run)
    → Next d r.sub (Outcome.received message) after_it
    → Refines r
    → Refines (record r { sub = after_it; taken = r.taken ++ message ∷ [] })
Next-Refines r (Next.by_message message rest e) v = record {
  bounded = ground arith;
  ordered = subst (λ (l : List Bytes). Subsequence l r.published) moved v.ordered;
  complete = λ h. sym moved ∙ v.complete h;
}
  where
    moved : r.taken ++ r.sub.channel ≡ (r.taken ++ message ∷ []) ++ rest
    moved = ap (λ (l : List Bytes). r.taken ++ l) e ∙ sym (append_assoc r.taken (message ∷ []) rest)

cancel-Refines : (r : Run) → Refines r → Refines (record r { sub = cancel r.sub })
unfolding cancel
cancel-Refines r v = record { bounded = v.bounded; ordered = v.ordered; complete = v.complete }

abbrev pub fresh : Run
fresh = record { sub = record { cancelled = false; channel = [] }; taken = []; published = [] }

-- However messages are published to a subscription and taken by its reader, cancelled or not, the channel holds at most
-- ten of them; what was taken and what waits is, in order, part of what was published since the
-- subscription began; and nothing is lost while no more than ten messages were published.
pub Moves-Refines : {r : Run} → Moves fresh r → Refines r
Moves-Refines Moves.start = record {
  bounded = omega arith;
  ordered = Subsequence.done;
  complete = λ h. refl;
}
Moves-Refines (Moves.next {u} ms (Move.publishes message)) =
    offer-Refines message u (Moves-Refines ms)
Moves-Refines (Moves.next {u} ms (Move.takes d message s n)) = Next-Refines u n (Moves-Refines ms)
Moves-Refines (Moves.next {u} ms Move.cancels) = cancel-Refines u (Moves-Refines ms)
