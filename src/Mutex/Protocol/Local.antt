-- ===== src/Mutex/Protocol/Local.antt =====
-- mutex/ricart_agrawala.go: an event depends on the nodes and on its own call, and changes no other
-- call.
use dynamo_db.Prelude.{
  ◌≡◌, refl, ap, Bool, true, false, elem, ℤ, int_key, nat_key, ◌==◌, if◌then◌else◌,
}
use dynamo_db.Node.{Node}
use dynamo_db.Mutex.Protocol.{
  Request, Phase, idle, asking, inside, forced, System, act, if_idle, if_asking, if_entered, Event,
  begins, asks, loses, fails, enters, gives_up, leaves, requests, hears, ticks,
}

abbrev pub owner : Event → ℤ
owner (begins i) = i
owner (asks i j) = i
owner (loses i j) = i
owner (fails i j) = i
owner (enters i) = i
owner (gives_up i) = i
owner (leaves i) = i
owner (requests i j time) = i
owner (hears j time) = j
owner (ticks i) = i

abbrev pub look : ℤ → System → (ℤ → Node) × Phase
look i s = (s.nodes, s.phase i)

-- The system whose nodes all have the phase.
abbrev pub alone : (ℤ → Node) × Phase → System
alone v = record { nodes = v.0; phase = λ i. v.1 }

module _ {ℓ} {A : Type ℓ} (f g : System → A) (s t : System) (same : f s ≡ g t) where
  if-both : (b : Bool) (u v : System) → f u ≡ g v → f (if b then u else s) ≡ g (if b then v else t)
  if-both true u v e = e
  if-both false u v e = same

  if_idle-both : (p : Phase) (u v : System) → f u ≡ g v → f (if_idle p u s) ≡ g (if_idle p v t)
  unfolding if_idle
  if_idle-both idle u v e = e
  if_idle-both (asking r) u v e = same
  if_idle-both (inside r) u v e = same
  if_idle-both (forced r) u v e = same

  if_asking-both :
      (p : Phase) (u v : Request → System)
      → ((r : Request) → f (u r) ≡ g (v r))
      → f (if_asking p u s) ≡ g (if_asking p v t)
  unfolding if_asking
  if_asking-both idle u v e = same
  if_asking-both (asking r) u v e = e r
  if_asking-both (inside r) u v e = same
  if_asking-both (forced r) u v e = same

  if_entered-both :
      (p : Phase) (u v : System) → f u ≡ g v → f (if_entered p u s) ≡ g (if_entered p v t)
  unfolding if_entered
  if_entered-both idle u v e = same
  if_entered-both (asking r) u v e = same
  if_entered-both (inside r) u v e = e
  if_entered-both (forced r) u v e = e

-- An event reads the nodes and the phase of its own node only.
pub act-look :
    (e : Event) (s : System)
    → look (owner e) (act e s) ≡ look (owner e) (act e (alone (look (owner e) s)))
unfolding act
act-look (begins i) s =
    if_idle-both (look i) (look i) s (alone (look i s)) refl (s.phase i) _ _ refl
act-look (asks i j) s =
    if_asking-both (look i) (look i) s (alone (look i s)) refl (s.phase i) _ _
      (λ r. if-both (look i) (look i) s (alone (look i s)) refl (elem j r.unasked) _ _ refl)
act-look (loses i j) s =
    if_asking-both (look i) (look i) s (alone (look i s)) refl (s.phase i) _ _
      (λ r. if-both (look i) (look i) s (alone (look i s)) refl (elem j r.unasked) _ _ refl)
act-look (fails i j) s =
    if_asking-both (look i) (look i) s (alone (look i s)) refl (s.phase i) _ _
      (λ r. if-both (look i) (look i) s (alone (look i s)) refl (elem j r.unasked) _ _ refl)
act-look (enters i) s =
    if_asking-both (look i) (look i) s (alone (look i s)) refl (s.phase i) _ _ (λ r. refl)
act-look (gives_up i) s =
    if_asking-both (look i) (look i) s (alone (look i s)) refl (s.phase i) _ _ (λ r. refl)
act-look (leaves i) s =
    if_entered-both (look i) (look i) s (alone (look i s)) refl (s.phase i) _ _ refl
act-look (requests i j time) s = refl
act-look (hears j time) s = refl
act-look (ticks i) s = refl

pub if_apart : {A : Type 0} (b : Bool) (x y : A) → b ≡ false → (if b then x else y) ≡ y
if_apart b x y e = ap (λ c. if c then x else y) e

-- It changes no other node's phase.
pub act-phase :
    (e : Event) (s : System) (i : ℤ) → (owner e == i) ≡ false → (act e s).phase i ≡ s.phase i
unfolding act
act-phase (begins k) s i other =
    if_idle-both (λ t. t.phase i) (λ t. s.phase i) s s refl (s.phase k) _ s
      (if_apart (k == i) _ _ other)
act-phase (asks k j) s i other =
    if_asking-both (λ t. t.phase i) (λ t. s.phase i) s s refl (s.phase k) _ (λ r. s)
      (λ r.
        if-both (λ t. t.phase i) (λ t. s.phase i) s s refl (elem j r.unasked) _ s
          (if_apart (k == i) _ _ other))
act-phase (loses k j) s i other =
    if_asking-both (λ t. t.phase i) (λ t. s.phase i) s s refl (s.phase k) _ (λ r. s)
      (λ r.
        if-both (λ t. t.phase i) (λ t. s.phase i) s s refl (elem j r.unasked) _ s
          (if_apart (k == i) _ _ other))
act-phase (fails k j) s i other =
    if_asking-both (λ t. t.phase i) (λ t. s.phase i) s s refl (s.phase k) _ (λ r. s)
      (λ r.
        if-both (λ t. t.phase i) (λ t. s.phase i) s s refl (elem j r.unasked) _ s
          (if_apart (k == i) _ _ other))
act-phase (enters k) s i other =
    if_asking-both (λ t. t.phase i) (λ t. s.phase i) s s refl (s.phase k) _ (λ r. s)
      (λ r. if_apart (k == i) _ _ other)
act-phase (gives_up k) s i other =
    if_asking-both (λ t. t.phase i) (λ t. s.phase i) s s refl (s.phase k) _ (λ r. s)
      (λ r. if_apart (k == i) _ _ other)
act-phase (leaves k) s i other =
    if_entered-both (λ t. t.phase i) (λ t. s.phase i) s s refl (s.phase k) _ s
      (if_apart (k == i) _ _ other)
act-phase (requests k j time) s i other = refl
act-phase (hears j time) s i other = refl
act-phase (ticks k) s i other = refl
