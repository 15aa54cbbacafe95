-- ===== src/Engine/Dedup/Verdicts.antt =====
-- What `observe` says of a datagram, and what it remembers.
use edge_feed_spec.Base.{
  ℕ, ◌+◌, ◌<◌, ◌≡◌, refl, sym, ap, ◌∙◌, ◌↔◌, List, Option, none, some, Bool, true, false, ◌==◌,
  ==_iff, if◌then◌else◌, max, nat_eq, pair_eq, arith, Bool-cases, Option-cases, inl, inr, ◌⊎◌,
}
use edge_feed_spec.Base.Maps.{lookup}
use edge_feed_spec.Base.Exec.{Finishes, >>=-Finishes}
use edge_feed_spec.Engine.State.{PortTracker, EraSeq}
use edge_feed_spec.Engine.Dedup.{ObserveResult, observe, observe_new, record_hash, jumps, advances}
use edge_feed_spec.Engine.Dedup.Ring.{IsRing, record_hash-IsRing}

-- The hash `h` of a datagram, the hash known for its key, and the last sequence number decide what
-- is said of it.
pub record IsVerdict (known : Option ℕ) (h : ℕ) (last : Option ℕ) (seq : ℕ) (r : ObserveResult)
    : Type 0 where
  pub duplicate : (r.is_dup ≡ true) ↔ (known ≡ some h)
  pub divergent : (r.is_divergent_dup ≡ true) ↔ ((g : ℕ) × (known ≡ some g) × ((g == h) ≡ false))
  pub gap : (r.gap_before ≡ true) ↔ ((known ≡ none) × ((l : ℕ) × (last ≡ some l) × (l + 1 < seq)))

abbrev latest : Option ℕ → ℕ → ℕ
latest none seq = seq
latest (some l) seq = max l seq

pub record Observed (t : PortTracker) (key : EraSeq) (h seq : ℕ) (r : ObserveResult × PortTracker)
    : Type 0 where
  pub verdict : IsVerdict (lookup key t.payload_hashes) h t.last_seq seq r.0
  pub valid : IsRing r.1
  pub remembers : (r.0.is_divergent_dup ≡ true) ⊎ (lookup key r.1.payload_hashes ≡ some h)
  pub forward :
      ((r.0.is_dup ≡ true) ⊎ (r.0.is_divergent_dup ≡ true))
      ⊎ (r.1.last_seq ≡ some (latest t.last_seq seq))

jumps_iff :
    (last : Option ℕ) (seq : ℕ)
    → (jumps last seq ≡ true) ↔ ((l : ℕ) × (last ≡ some l) × (l + 1 < seq))
jumps_iff none seq = (λ h. ground arith, λ h. ground arith)
jumps_iff (some l) seq = (λ h. (l, refl, ground arith), λ (m, e, b). ground (arith, e, b))

if_either {ℓ} :
    {A : Type ℓ} (P : A → Type 0) (x y : A) (b : Bool) → P x → P y → P (if b then x else y)
if_either P x y true p q = p
if_either P x y false p q = q

if_apply {ℓ κ} :
    {A : Type ℓ} {B : Type κ} (f : A → B) (x y : A) (b : Bool)
    → f (if b then x else y) ≡ (if b then f x else f y)
if_apply f x y true = refl
if_apply f x y false = refl

advances_latest :
    (last : Option ℕ) (seq : ℕ)
    → (if advances last seq then some seq else last) ≡ some (latest last seq)
advances_latest none seq = refl
advances_latest (some l) seq = ground arith

moved-IsRing :
    (t : PortTracker) (s ts : Option ℕ)
    → IsRing t
    → IsRing (record t { last_seq = s; last_send_ts = ts })
moved-IsRing t s ts v = record {
  some_slot = v.some_slot;
  allocated = v.allocated;
  size_fits = v.size_fits;
  pos_fits = v.pos_fits;
  filling = v.filling;
  distinct = v.distinct;
  as_many = v.as_many;
  present = v.present;
  apart = v.apart;
}

module _ (t : PortTracker) (key : EraSeq) (h seq send_ts : ℕ) (v : IsRing t) where
  new_Observed :
      lookup key t.payload_hashes ≡ none
      → Finishes (observe_new t key h seq send_ts) (Observed t key h seq)
  unfolding observe_new
  new_Observed new =
      >>=-Finishes (record_hash t key h) _
        (λ t'. IsRing t' × (lookup key t'.payload_hashes ≡ some h) × (t'.last_seq ≡ t.last_seq)) _
        (record_hash-IsRing t key v new h)
        (λ t' (ring, held, same). record {
          verdict = record {
            duplicate = (λ e. ground arith, λ e. ground arith);
            divergent = (λ e. ground arith, λ (g, e, _). ground (arith, e));
            gap = (
              λ e. (new, (jumps_iff t.last_seq seq).0 (ap (λ l. jumps l seq) (sym same) ∙ e)),
              λ (_, m). ap (λ l. jumps l seq) same ∙ (jumps_iff t.last_seq seq).1 m,
            );
          };
          valid =
              if_either IsRing _ _ (advances t'.last_seq seq)
                (moved-IsRing t' (some seq) (some send_ts) ring) ring;
          remembers = inr (
              if_either (λ (u : PortTracker). lookup key u.payload_hashes ≡ some h) _ _
                (advances t'.last_seq seq) held held);
          forward = inr (
              if_apply (λ (u : PortTracker). u.last_seq) _ _ (advances t'.last_seq seq)
              ∙ ap (λ l. if advances l seq then some seq else l) same
              ∙ advances_latest t.last_seq seq);
        })

-- From a valid ring, `observe` returns on any datagram, for any hash function. It calls a datagram a
-- duplicate exactly if its era and sequence number are known with its hash, divergent exactly if
-- with another one, and reports a gap exactly if it is new and its number leaves one out after the
-- last. It knows afterwards what it does not call divergent; for a new datagram the last number is the
-- greatest so far; the ring is valid again, so it and the map stay within the capacity.
pub observe-Observed :
    (hash_raw : List ℕ → ℕ) (t : PortTracker) (seq send_ts : ℕ) (raw : List ℕ) (era : ℕ)
    → IsRing t
    → Finishes (observe hash_raw t seq send_ts raw era) (Observed t (era, seq) (hash_raw raw) seq)
unfolding observe
observe-Observed hash_raw t seq send_ts raw era v =
    let h = hash_raw raw in
    elim (Option-cases (lookup (era, seq) t.payload_hashes)) [
      | inl new ↦ rw (new, observe) (new_Observed t (era, seq) h seq send_ts v new)
      | inr (prev, seen) ↦ elim (Bool-cases (prev == h)) [
        | inl same ↦
            rw (seen, observe, same)
              (record {
                verdict = record {
                  duplicate = (λ e. seen ∙ ap some ((==_iff prev h).0 same), λ e. refl);
                  divergent = (λ e. ground arith, λ (g, e, o). ground (arith, e, o, seen, same));
                  gap = (λ e. ground arith, λ (n, _). ground (arith, n, seen));
                };
                valid = v;
                remembers = inr (seen ∙ ap some ((==_iff prev h).0 same));
                forward = inl (inl refl);
              })
        | inr other ↦
            rw (seen, observe, other)
              (record {
                verdict = record {
                  duplicate = (λ e. ground arith, λ e. ground (arith, e, seen, other));
                  divergent = (λ e. (prev, seen, other), λ e. refl);
                  gap = (λ e. ground arith, λ (n, _). ground (arith, n, seen));
                };
                valid = v;
                remembers = inl refl;
                forward = inl (inr refl);
              })
      ]
    ]
