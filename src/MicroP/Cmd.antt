-- ===== src/MicroP/Cmd.antt =====
-- The registers of the microprocessor that the driver names, from QSD8250Pkg/Include/Device/microp.h.
use msm8909pkg.Base.{ℕ}

abbrev pub led_pwm : ℕ
led_pwm = 0x25

abbrev pub version : ℕ
version = 0x30

abbrev pub led_ctrl : ℕ
led_ctrl = 0x51

abbrev pub read_adc_value_req : ℕ
read_adc_value_req = 0x60

abbrev pub adc_value : ℕ
adc_value = 0x62

abbrev pub gpi_int_ctl_en : ℕ
gpi_int_ctl_en = 0x80

abbrev pub gpi_int_ctl_dis : ℕ
gpi_int_ctl_dis = 0x81

abbrev pub gpi_int_status : ℕ
gpi_int_status = 0x82

abbrev pub gpio_status : ℕ
gpio_status = 0x83

abbrev pub gpo_led_status_en : ℕ
gpo_led_status_en = 0x90

abbrev pub gpo_led_status_dis : ℕ
gpo_led_status_dis = 0x91
