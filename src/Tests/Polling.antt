-- ===== src/Tests/Polling.antt =====
-- Launches that are polled, on the device that runs in the model.
use gudra.Common.{
  ℕ, ◌/◌, ◌<◌, ◌≤◌, ◌≡◌, ◌⊎◌, refl, subst, inl, inr, arith, Bool, true, false, if◌then◌else◌,
}
use gudra.Backend.{PollLaws, Responsive, Launch, in_flight, finished, done, HasExtent, ◌∈◌}
use gudra.Tests.Devices.{Memory, memory, memory-LaunchLaws}

finished_injective : {k l : Launch} → finished k ≡ finished l → k ≡ l
finished_injective e = cc

poll_covers :
    (n : ℕ) (t : Memory) (submitted busy : Bool) (l : Launch) (h w r c : ℕ)
    → (memory.poll_launch n t submitted busy).1 ≡ finished l
    → 0 < n
    → HasExtent memory t h w
    → r < h
    → c < w
    → (r / n, c / n) ∈ l.ran
poll_covers n t submitted true l h w r c e hn extent hr hc = absurd (cc)
poll_covers n t submitted false l h w r c e hn extent hr hc =
    subst (λ k. (r / n, c / n) ∈ k.ran) (finished_injective e)
      (memory-LaunchLaws.covers n t true h w r c hn extent hr hc refl)

pub memory-PollLaws : PollLaws memory
memory-PollLaws = record {
  poll_covers = λ n t submitted busy l h w r c e hn extent hr hc ended.
      poll_covers n t submitted busy l h w r c e hn extent hr hc;
}

abbrev pub left : Bool → ℕ
left busy = if busy then 1 else 0

pub left_bound : (busy : Bool) → left busy ≤ 1
left_bound busy = ground arith

pub polls :
    (n : ℕ) (t : Memory) (submitted busy : Bool)
    → ((memory.poll_launch n t submitted busy).1 ≡ in_flight)
        × (left (memory.poll_launch n t submitted busy).0 < left busy)
      ⊎ (l : Launch) × ((memory.poll_launch n t submitted busy).1 ≡ finished l)
        × (l.ended ≡ done tt)
polls n t submitted true = inl (refl, omega arith)
polls n t submitted false = inr (_, refl, refl)

abbrev pub memory_responsive : Responsive memory
memory_responsive = record { patience = 1; polls_left = left; patient = left_bound; polls = polls }
