-- ===== src/Mana.antt =====
-- mana_decay_provider.go: fixed-point arithmetic, the decay of Mana over epochs and the Mana that
-- base tokens generate over slots.
pub mod FixedPoint
pub mod Decay
