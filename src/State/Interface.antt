-- ===== src/State/Interface.antt =====
-- internal/state/store.go: the interface `Store`, which the in-memory store and the NATS store
-- implement. A backend may also be changed by other services between two calls.
use malert.State.Memory
use malert.Domain.{AlertCard}
use malert.Base.{Time, Duration, Text, Unicode, ℕ, Bool, List}
use malert.State.Memory.{MemoryStore, Result, ok}

pub record Store : Type 1 where
  pub Backend : Type 0
  pub refresh_tick : Backend → Text → Time → Duration → Backend × Result (Unit {0})
  pub has_tick : Backend → Text → Backend × Result Bool
  pub get_card : Backend → Text → Backend × Result (AlertCard × ℕ)
  pub create_card : Backend → Text → AlertCard → Backend × Result ℕ
  pub put_card : Backend → Text → AlertCard → Backend × Result ℕ
  pub update_card : Backend → Text → ℕ → AlertCard → Backend × Result ℕ
  pub delete_card : Backend → Text → Backend × Result (Unit {0})
  pub list_alert_ids_by_rule : Backend → Text → Backend × Result (List Text)

-- The in-memory store, when its clock reads `now`.
abbrev pub memory_store : Unicode → Time → Store
memory_store u now = record {
  Backend = MemoryStore;
  refresh_tick = λ s id last_seen ttl. (Memory.refresh_tick s id last_seen ttl, ok tt);
  has_tick = λ s id. let (t, alive) = Memory.has_tick s id now in (t, ok alive);
  get_card = λ s id. (s, Memory.get_card s id);
  create_card = Memory.create_card;
  put_card = Memory.put_card;
  update_card = Memory.update_card;
  delete_card = λ s id. (Memory.delete_card s id, ok tt);
  list_alert_ids_by_rule = λ s name. (s, ok (Memory.list_alert_ids_by_rule u s name));
}
