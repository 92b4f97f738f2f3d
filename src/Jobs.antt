-- ===== src/Jobs.antt =====
-- The life of a job across the transactions of the store: `Evolves` says what may become of a row
-- of `jobs`. The children follow it through the methods of the store.
pub mod Rows
pub mod Starts
pub mod Completions
pub mod Claims
pub mod Reaps
pub mod Inserts
pub mod Compactions
use eastwatch.Prelude.{ℕ, ◌≤◌, Bool, true, false, ◌≡◌, refl, ◌∙◌, arith}
use eastwatch.Models.{JobState}
use eastwatch.Schema.{Job, is_active}

-- The states that a job can come to, in any number of steps, from a state.
abbrev pub leads_to : JobState → JobState → Bool
leads_to JobState.queued JobState.cancelled = false
leads_to JobState.queued t = true
leads_to JobState.leased JobState.cancelled = false
leads_to JobState.leased t = true
leads_to JobState.running JobState.running = true
leads_to JobState.running JobState.succeeded = true
leads_to JobState.running JobState.failed = true
leads_to JobState.succeeded JobState.succeeded = true
leads_to JobState.failed JobState.failed = true
leads_to JobState.cancelled JobState.cancelled = true
leads_to s t = false

-- Whether a job has left the queue for good.
abbrev pub has_begun : JobState → Bool
has_begun JobState.queued = false
has_begun JobState.leased = false
has_begun s = true

pub record Evolves (j k : Job) : Type 0 where
  pub same_id : k.job_id ≡ j.job_id
  pub same_workspace : k.workspace_id ≡ j.workspace_id
  pub same_conversation : k.conversation_key ≡ j.conversation_key
  pub same_trigger : k.trigger_event_key ≡ j.trigger_event_key
  pub state_leads : leads_to j.state k.state ≡ true
  pub generation_grows : j.lease_generation ≤ k.lease_generation
  pub generation_frozen : has_begun j.state ≡ true → k.lease_generation ≡ j.lease_generation

pub leads_to_refl : (s : JobState) → leads_to s s ≡ true
leads_to_refl JobState.queued = refl
leads_to_refl _ = refl

leads_to_trans :
    (s t u : JobState) → leads_to s t ≡ true → leads_to t u ≡ true → leads_to s u ≡ true
leads_to_trans s t u h k = ground arith

begun_stays : (s t : JobState) → leads_to s t ≡ true → has_begun s ≡ true → has_begun t ≡ true
begun_stays s t h k = ground arith

pub Evolves-refl : (j : Job) → Evolves j j
Evolves-refl j = record {
  same_id = refl;
  same_workspace = refl;
  same_conversation = refl;
  same_trigger = refl;
  state_leads = leads_to_refl j.state;
  generation_grows = omega arith;
  generation_frozen = λ _. refl;
}

-- A change of other columns only.
pub Evolves-columns :
    (j k : Job)
    → (k.job_id ≡ j.job_id)
      × (k.workspace_id ≡ j.workspace_id)
      × (k.conversation_key ≡ j.conversation_key)
      × (k.trigger_event_key ≡ j.trigger_event_key)
      × (k.state ≡ j.state)
      × (k.lease_generation ≡ j.lease_generation)
    → Evolves j k
Evolves-columns j k (a, b, c, d, s, g) = record {
  same_id = a;
  same_workspace = b;
  same_conversation = c;
  same_trigger = d;
  state_leads = rw s (leads_to_refl j.state);
  generation_grows = omega arith;
  generation_frozen = λ _. g;
}

pub Evolves-trans : (j k l : Job) → Evolves j k → Evolves k l → Evolves j l
Evolves-trans j k l e f = record {
  same_id = f.same_id ∙ e.same_id;
  same_workspace = f.same_workspace ∙ e.same_workspace;
  same_conversation = f.same_conversation ∙ e.same_conversation;
  same_trigger = f.same_trigger ∙ e.same_trigger;
  state_leads = leads_to_trans j.state k.state l.state e.state_leads f.state_leads;
  generation_grows = omega arith;
  generation_frozen = λ h.
      f.generation_frozen (begun_stays j.state k.state e.state_leads h) ∙ e.generation_frozen h;
}

-- A change that leases nothing: a job that holds a lease after it held one before. Every method but
-- `claim_jobs` makes only such changes.
pub record Settles (j k : Job) : Type 0 where
  pub life : Evolves j k
  pub not_leased : is_active k.state ≡ true → is_active j.state ≡ true

pub Settles-refl : (j : Job) → Settles j j
Settles-refl j = record { life = Evolves-refl j; not_leased = λ h. h }

pub Settles-trans : (j k l : Job) → Settles j k → Settles k l → Settles j l
Settles-trans j k l e f = record {
  life = Evolves-trans j k l e.life f.life;
  not_leased = λ h. e.not_leased (f.not_leased h);
}

pub Settles-columns :
    (j k : Job)
    → (k.job_id ≡ j.job_id)
      × (k.workspace_id ≡ j.workspace_id)
      × (k.conversation_key ≡ j.conversation_key)
      × (k.trigger_event_key ≡ j.trigger_event_key)
      × (k.state ≡ j.state)
      × (k.lease_generation ≡ j.lease_generation)
    → Settles j k
Settles-columns j k same = record {
  life = Evolves-columns j k same;
  not_leased = λ h. ground (arith, same.4);
}
