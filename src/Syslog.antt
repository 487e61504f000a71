-- ===== src/Syslog.antt =====
-- pkg/alerts/syslog/syslog.go: the text of a syslog record for an alert.
pub mod Records
mod Tests
use integrity_sum.Base.{
  ℕ, ◌+◌, Bool, true, false, List, [], ◌∷◌, ◌++◌, Option, none, some, Bytes, codes, same,
  if◌then◌else◌, ltb,
}
use integrity_sum.Base.Map.{Map, lookup}
use integrity_sum.Strings.Search.{has_suffix}
use integrity_sum.Strings.Decimal.{ℤ, format_nat, format_int}
use integrity_sum.Alerts.{Alert, heartbeat_event}

-- `ErrToType`
abbrev pub err_to_type : Map ℕ
err_to_type =
    (codes "file content mismatch", 1)
    ∷ (codes "new file found", 2)
    ∷ (codes "file deleted", 3)
    ∷ (heartbeat_event, 4)
    ∷ []

-- `ErrToType[alert.Reason]`: a missing key gives 0.
abbrev number_of : Option ℕ → ℕ
number_of none = 0
number_of (some n) = n

unfoldable pub event_type : Bytes → ℕ
event_type reason = number_of (lookup reason err_to_type)

-- `%04d`
unfoldable pub four_digits : ℕ → Bytes
four_digits n =
    if ltb n 10
    then codes "000" ++ format_nat n
    else if ltb n 100
    then codes "00" ++ format_nat n
    else if ltb n 1000
    then b'0' ∷ format_nat n
    else format_nat n

-- `SyslogClient`, without its dialer and its logger.
pub record SyslogClient : Type 0 where
  pub net_type : Bytes
  pub address : Bytes
  pub priority : ℕ
  pub tag : Bytes
  pub hostname : Bytes

-- `syslog.LOG_WARNING | syslog.LOG_DAEMON`
abbrev pub default_priority : ℕ
default_priority = 28

abbrev pub or_else : Bytes → Bytes → Bytes
or_else [] other = other
or_else (c ∷ s) other = c ∷ s

-- `New`, with `os.Hostname()` and `os.Args[0]`
unfoldable pub new_client : Bytes → Bytes → Bytes → Bytes → ℕ → Bytes → Bytes → SyslogClient
new_client os_hostname program network addr priority host_name tag = record {
  net_type = network;
  address = addr;
  priority = priority;
  tag = or_else tag program;
  hostname = or_else host_name os_hostname;
}

-- What the record shows of the surroundings: the host name, the flags, and the client's fields.
pub record Context : Type 0 where
  pub host_name : Bytes
  pub process_image : Map Bytes
  pub pod_namespace : Bytes
  pub cluster_name : Bytes
  pub priority : ℕ
  pub now : Bytes
  pub hostname : Bytes
  pub tag : Bytes
  pub pid : ℕ

abbrev image_of : Option Bytes → Bytes
image_of none = []
image_of (some image) = image

unfoldable pub syslog_message : Context → Alert → Bytes
unfolding event_type four_digits
syslog_message c a =
    codes "time="
    ++ (a.time
        ++ (codes " event-type="
            ++ (four_digits (event_type a.reason)
                ++ (codes " service="
                    ++ (a.process_name
                        ++ (codes " pod="
                            ++ (c.host_name
                                ++ (codes " image="
                                    ++ (image_of (lookup a.process_name c.process_image)
                                        ++ (codes " namespace="
                                            ++ (c.pod_namespace
                                                ++ (codes " cluster="
                                                    ++ (c.cluster_name
                                                        ++ (codes " message="
                                                            ++ (a.message
                                                            ++ (codes " file="
                                                            ++ (a.path
                                                            ++ (codes " reason="
                                                            ++ a.reason))))))))))))))))))

-- `<PRI>TIMESTAMP HOST TAG`
unfoldable pub header : Context → Bytes
header c =
    codes "<"
    ++ (format_nat c.priority
        ++ (codes ">"
            ++ (c.now
                ++ (codes " "
                    ++ (c.hostname
                        ++ (codes " "
                            ++ (c.tag ++ (codes "[" ++ (format_nat c.pid ++ codes "]:")))))))))

-- `nl`: a line end unless the message has one.
abbrev pub line_end : Bytes → Bytes
line_end msg = if has_suffix msg (b'\n' ∷ []) then [] else b'\n' ∷ []

-- What `Fprintf` writes to the connection.
unfoldable pub record_text : Context → Alert → Bytes
record_text c a = let msg = syslog_message c a in header c ++ (b' ' ∷ msg ++ line_end msg)

-- `Send`: `dial` and the write may fail; the connection takes the record.
pub data SendError : Type 0 where
  cannot_connect write_failed : SendError

unfoldable pub send_record :
    Context → Option (Bytes → Bool) → Alert → Option SendError × Option Bytes
send_record c none a = (some cannot_connect, none)
send_record c (some takes) a =
    if takes (record_text c a) then (none, some (record_text c a)) else (some write_failed, none)
