-- ===== src/Records.antt =====
-- What the records of actions and of diagnostics share: the label of a device
-- (`app/models/device.py`), and the time that a run took.
use netops_console.Prelude.{ℕ, suc, ◌-◌, leb, or_else, truthy, if◌then◌else◌}
use netops_console.Prelude.Int.{ℤ, pos, negsuc}
use netops_console.Prelude.Text.{Text, codes}
use netops_console.Discovery.Inventory.{Device}

-- `Device.display_name`
unfoldable pub display_name : Device → Text
display_name device =
    codes (or_else (truthy device.name) (or_else (truthy device.hostname) device.ip_address))

-- The milliseconds from one reading of the clock to a later one, or an earlier.
unfoldable pub milliseconds : ℕ → ℕ → ℤ
milliseconds started completed =
    if leb started completed then pos (completed - started) else negsuc (started - suc completed)
