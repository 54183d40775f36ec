-- ===== src/Desktop/Jobs/Waiting.antt =====
-- A job whose input is settled goes on to its answer.
use net_conductor.Base.Text.{Text}
