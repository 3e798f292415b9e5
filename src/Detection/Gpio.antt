-- ===== src/Detection/Gpio.antt =====
-- src/detection/detection.c: the GPIO files under /sys/class/gpio. The operating system's answers to
-- `open`, `write` and `read` are arguments; the calls made are listed in order.
use Prim.Native.String.{String}
use beaglebone_black_motion.Base.{
  ℕ, zero, suc, ◌-◌, ◌^◌, ◌||◌, ◌⊎◌, ◌≡◌, Bool, true, false, Option, none, some, List, [], ◌∷◌,
  ◌++◌, ◌==◌, if◌then◌else◌, arith,
}
use beaglebone_black_motion.Base.Int.{ℤ, pos, negsuc, ltb_ℤ}
use beaglebone_black_motion.Events.{event_motion_detected}
use beaglebone_black_motion.Types.{u8}
use beaglebone_black_motion.Detection.{Detection, Timespec, iterate}

-- A call to the operating system: `open` with the descriptor that it returns, and the calls that use
-- a descriptor.
pub data Call : Type 0 where
  opens : String → ℤ → Call
  writes : ℤ → String → Call
  reads : ℤ → Call
  closes : ℤ → Call

abbrev pub gpio_export : String
gpio_export = "/sys/class/gpio/export"

abbrev pub gpio_unexport : String
gpio_unexport = "/sys/class/gpio/unexport"

abbrev pub gpio_direction : String
gpio_direction = "/sys/class/gpio/gpio60/direction"

-- `GPIO_PATH`
abbrev pub gpio_path : String
gpio_path = "/sys/class/gpio/gpio60/value"

-- `fd < 0`
abbrev pub failed : ℤ → Bool
failed r = ltb_ℤ r (pos 0)

-- `read(...) == 1`
abbrev pub is_one : ℤ → Bool
is_one (pos n) = n == 1
is_one (negsuc n) = false

-- One block of the code: open a file, write a text into it, close it. The code's `return -1` is
-- `false`, after closing the file if it was opened.
pub write_file : String → String → ℤ → ℤ → Bool × List Call
write_file path text fd written =
    if failed fd
    then (false, opens path fd ∷ [])
    else if failed written
    then (false, opens path fd ∷ writes fd text ∷ closes fd ∷ [])
    else (true, opens path fd ∷ writes fd text ∷ closes fd ∷ [])

-- `initialize_gpio`, from what its calls of `open` and `write` return: first those on the export
-- file, then those on the direction file.
pub initialize_gpio : (fd written fd' written' : ℤ) → ℤ × List Call
unfolding write_file
initialize_gpio fd written fd' written' =
    let (done, calls) = write_file gpio_export "60\n" fd written in
    if done
    then (let (done', calls') = write_file gpio_direction "in\n" fd' written' in
        (if done' then pos 0 else negsuc 0, calls ++ calls'))
    else (negsuc 0, calls)

-- `detection_init`: the calls of `initialize_gpio`, whose result is ignored, and the size of the queue
-- that `osal_queue_create` is called for.
unfoldable pub detection_init : (fd written fd' written' : ℤ) → List Call × ℕ
detection_init fd written fd' written' = ((initialize_gpio fd written fd' written').1, 10)

-- `deinitialize_gpio`
pub deinitialize_gpio : (fd written : ℤ) → ℤ × List Call
unfolding write_file
deinitialize_gpio fd written =
    let (done, calls) = write_file gpio_unexport "60\n" fd written in
    (if done then pos 0 else negsuc 0, calls)

-- `read_gpio_value`, from what `open` and `read` return and the byte read.
pub read_gpio_value : (fd count : ℤ) (value : ℕ) → ℤ × List Call
read_gpio_value fd count value =
    if failed fd
    then (negsuc 0, opens gpio_path fd ∷ [])
    else if is_one count
    then (if value == b'1' then pos 1 else pos 0, opens gpio_path fd ∷ reads fd ∷ closes fd ∷ [])
    else (negsuc 0, opens gpio_path fd ∷ reads fd ∷ closes fd ∷ [])

-- The conversion of an `int` to `uint8_t` in `uint8_t cur_status = read_gpio_value();`.
abbrev pub to_u8 : ℤ → ℕ
to_u8 (pos n) = u8 n
to_u8 (negsuc n) = (2 ^ 8 - 1) - u8 n

-- How many descriptors are open after the calls, given how many were before; `none` if a descriptor
-- is closed twice.
abbrev pub open_after : ℕ → List Call → Option ℕ
open_after n [] = some n
open_after n (opens _ fd ∷ cs) = open_after (if failed fd then n else suc n) cs
open_after zero (closes _ ∷ cs) = none
open_after (suc n) (closes _ ∷ cs) = open_after n cs
open_after n (writes _ _ ∷ cs) = open_after n cs
open_after n (reads _ ∷ cs) = open_after n cs

-- Whatever the operating system answers, the three functions leave no descriptor open and close none
-- twice.
pub gpio_no_leak :
    (fd written fd' written' : ℤ) (value : ℕ)
    → (open_after 0 (initialize_gpio fd written fd' written').1 ≡ some 0)
      × (open_after 0 (deinitialize_gpio fd written).1 ≡ some 0)
      × (open_after 0 (read_gpio_value fd written value).1 ≡ some 0)
unfolding initialize_gpio deinitialize_gpio read_gpio_value
gpio_no_leak fd written fd' written' value = (ground arith, ground arith, ground arith)

-- `initialize_gpio` returns 0 exactly if none of its calls failed, and -1 otherwise.
pub initialize_gpio_result :
    (fd written fd' written' : ℤ)
    → (initialize_gpio fd written fd' written').0
      ≡ (if failed fd || failed written || failed fd' || failed written' then negsuc 0 else pos 0)
unfolding initialize_gpio
initialize_gpio_result fd written fd' written' = ground arith

read_failed :
    (fd count : ℤ) (value : ℕ)
    → (failed fd ≡ true) ⊎ (is_one count ≡ false)
    → (read_gpio_value fd count value).0 ≡ negsuc 0
unfolding read_gpio_value
read_failed fd count value h = ground arith

high_reports :
    (now : Timespec) (d : Detection)
    → d.flag ≡ false
    → let (d', sent) = iterate (record { status = 255; now = now }) d in
      (d'.flag ≡ true) × (sent ≡ event_motion_detected ∷ [])
unfolding iterate
high_reports now d f = ground arith

-- A failed read of the sensor is taken for motion: if `open` fails, or `read` does not return one
-- byte, then a turn with that status and the flag down reports motion and raises the flag.
pub failed_read_reports_motion :
    (fd count : ℤ) (value : ℕ) (now : Timespec) (d : Detection)
    → (failed fd ≡ true) ⊎ (is_one count ≡ false)
    → d.flag ≡ false
    → let status = to_u8 (read_gpio_value fd count value).0 in
      let (d', sent) = iterate (record { status = status; now = now }) d in
      (d'.flag ≡ true) × (sent ≡ event_motion_detected ∷ [])
failed_read_reports_motion fd count value now d h f =
    rw (read_failed fd count value h) (high_reports now d f)
