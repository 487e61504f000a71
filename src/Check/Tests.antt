-- ===== src/Check/Tests.antt =====
-- A comparison that finds no checksums.
use integrity_sum.Monitor.{load_failed, Verdict, failed}

abbrev no_checksums : Verdict
no_checksums = failed load_failed
