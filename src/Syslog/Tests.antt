-- ===== src/Syslog/Tests.antt =====
-- Syslog records of integrity errors.
use integrity_sum.Base.{◌≡◌, refl, [], codes}
use integrity_sum.Strings.Decimal.{format_nat}
use integrity_sum.Alerts.{Alert, new_alert}
use integrity_sum.Monitor.{IntegrityError}
use integrity_sum.Syslog.{Context, four_digits, header}

abbrev deleted : IntegrityError
deleted = record { kind = 3; path = codes "etc/a"; hash = codes "0f" }

abbrev context : Context
context = record {
  host_name = codes "pod";
  process_image = [];
  pod_namespace = codes "ns";
  cluster_name = codes "local";
  priority = 28;
  now = codes "Jan  1 00:00:00";
  hostname = codes "dep.ns";
  tag = codes "integrity-monitor";
  pid = 1;
}

abbrev alert : Alert
alert = new_alert (codes "t") (codes "m") (codes "file deleted") (codes "etc/a") (codes "nginx")

four_digits_of_type : four_digits 3 ≡ codes "0003"
unfolding four_digits format_nat
four_digits_of_type = refl

header_of_client : header context ≡ codes "<28>Jan  1 00:00:00 dep.ns integrity-monitor[1]:"
unfolding header format_nat
header_of_client = refl
