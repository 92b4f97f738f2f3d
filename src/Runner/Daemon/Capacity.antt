-- ===== src/Runner/Daemon/Capacity.antt =====
-- What holds in every state that a daemon reaches.
use eastwatch.Prelude.{
  ℕ, suc, ◌+◌, ◌-◌, ◌≤◌, Bool, true, Option, none, some, List, [], ◌∷◌, ◌≡◌, refl, ◌∙◌, ap, inl,
  inr, arith, Bool-cases,
}
use eastwatch.Table.{length, has_where, select_where, count_where}
use eastwatch.Table.Counts.{count-update_le, count-append}
use eastwatch.Table.Every.{All-of}
use eastwatch.Models.{ClaimedJob}
use eastwatch.Runner.Daemon.{
  Daemon, new_daemon, is_running, has_key, active_count, reject_lease, collect_finished, key_of,
  new_worker, submit, submit_all, slots_to_ask, look, take_leases, finish,
}
use eastwatch.Runner.Daemon.Steps.{Step, looks, claims, ends, rejects, Reach, begins, later}

count-select_same :
    {A : Type 0} (p : A → Bool) (xs : List A) → count_where p (select_where p xs) ≡ count_where p xs
unfolding count_where select_where
count-select_same p [] = refl
count-select_same p (x ∷ xs) = ground (arith, count-select_same p xs)

-- The slots of a claim that is under way are free.
abbrev asked_slots : Option ℕ → ℕ
asked_slots none = 0
asked_slots (some n) = n

record Fits (capacity : ℕ) (d : Daemon) : Type 0 where
  pub same : d.capacity ≡ capacity
  pub fits : asked_slots d.asked + active_count d ≤ capacity

submit-count :
    (lease : ClaimedJob) (d : Daemon) → active_count (submit lease d) ≤ suc (active_count d)
unfolding submit active_count count_where
submit-count lease d = elim (Bool-cases (has_where (has_key (key_of lease)) d.active)) [
  | inl old ↦ rw (old, submit) (omega arith)
  | inr new ↦
      rw (new, submit) (omega (arith, count-append is_running d.active (new_worker lease ∷ [])))
]

submit-same :
    (lease : ClaimedJob) (d : Daemon)
    → ((submit lease d).capacity ≡ d.capacity) × ((submit lease d).asked ≡ d.asked)
unfolding submit
submit-same lease d = (ground arith, ground arith)

submit_all-count :
    (leases : List ClaimedJob) (d : Daemon)
    → (active_count (submit_all leases d) ≤ length leases + active_count d)
      × ((submit_all leases d).capacity ≡ d.capacity)
      × ((submit_all leases d).asked ≡ d.asked)
unfolding submit_all
submit_all-count [] d = (omega arith, refl, refl)
submit_all-count (lease ∷ leases) d =
    let (count, capacity, asked) = submit_all-count leases (submit lease d) in
    (
      omega (arith, count, submit-count lease d),
      capacity ∙ (submit-same lease d).0,
      asked ∙ (submit-same lease d).1,
    )

slots_to_ask_lem : (n : ℕ) → asked_slots (slots_to_ask n) ≡ n
slots_to_ask_lem n = ground arith

Step-Fits : (capacity : ℕ) (d e : Daemon) → Fits capacity d → Step d e → Fits capacity e
unfolding look collect_finished active_count take_leases finish reject_lease
Step-Fits capacity d e f (looks idle) = record {
  same = f.same;
  fits = omega (
    arith,
    f.same,
    f.fits,
    count-select_same is_running d.active,
    slots_to_ask_lem (d.capacity - count_where is_running (select_where is_running d.active)),
  );
}
Step-Fits capacity d e f (claims n leases asked few) =
    let (count, same, idle) = submit_all-count leases (record d { asked = none }) in
    record {
      same = same ∙ f.same;
      fits = omega (arith, count, ap asked_slots idle, ap asked_slots asked, few, f.fits);
    }
Step-Fits capacity d e f (ends key) = record {
  same = f.same;
  fits = omega (
    arith,
    f.fits,
    count-update_le is_running (has_key key) (λ w. record w { finished = true }) d.active
        (All-of (λ w h k. absurd (ground (arith, k))) d.active),
  );
}
Step-Fits capacity d e f (rejects key) = record {
  same = f.same;
  fits = omega (
    arith,
    f.fits,
    count-update_le is_running (has_key key) (λ w. record w { cancelled = true }) d.active
        (All-of (λ w h k. k) d.active),
  );
}

Reach-Fits : (capacity : ℕ) (d : Daemon) → Reach capacity d → Fits capacity d
unfolding new_daemon active_count count_where
Reach-Fits capacity d (begins e made) =
    let empty : count_where is_running d.active ≡ 0 = ground (arith, made) in
    record { same = ground (arith, made); fits = ground (arith, made, empty) }
Reach-Fits capacity d (later c e reached step) =
    Step-Fits capacity c d (Reach-Fits capacity c reached) step

-- In every state that the threads of a daemon reach, whatever the order of their steps, no more
-- jobs are active than its capacity, if each claim is answered with at most as many leases as were
-- asked for.
pub daemon_bound : (capacity : ℕ) (d : Daemon) → Reach capacity d → active_count d ≤ capacity
daemon_bound capacity d reached = omega (arith, (Reach-Fits capacity d reached).fits)
