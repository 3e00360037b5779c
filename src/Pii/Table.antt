-- ===== src/Pii/Table.antt =====
-- security/pii_redactor.py, `_PII_PATTERNS` in the order of the source. Every entry ignores case, as
-- the default has it, and is enabled.
use ai_chat_bot_v.Base.{ℕ, true, List, [], ◌∷◌, String}
use ai_chat_bot_v.Pii.{PiiPattern}

abbrev entry : (name pattern replacement : String) → (priority : ℕ) → String → PiiPattern
entry name pattern replacement priority description = record {
  name = name;
  pattern = pattern;
  replacement = replacement;
  priority = priority;
  enabled = true;
  description = description;
}

abbrev pub pii_patterns : List PiiPattern
pii_patterns =
    entry "credit_card"
      "\\b(?:4[0-9]{12}(?:[0-9]{3})?|5[1-5][0-9]{14}|3[47][0-9]{13}|3(?:0[0-5]|[68][0-9])[0-9]{11}|6(?:011|5[0-9]{2})[0-9]{12})\\b"
      "[CREDIT_CARD]" 100 "Visa, Mastercard, Amex, Discover card numbers"
    ∷ entry "credit_card_spaced" "\\b(?:\\d[ -]?){13,16}\\b" "[CREDIT_CARD]" 99
        "Credit card numbers with spaces or dashes"
    ∷ entry "cvv" "\\b(?:cvv|cvc|csc|security code)[:\\s]*\\d{3,4}\\b" "[CVV]" 98
        "CVV/CVC security codes"
    ∷ entry "bank_account" "\\b[0-9]{9,18}\\b(?=.*\\b(?:account|acct|bank)\\b)" "[BANK_ACCOUNT]" 97
        "Bank account numbers near keywords"
    ∷ entry "ifsc_code" "\\b[A-Z]{4}0[A-Z0-9]{6}\\b" "[IFSC_CODE]" 96
        "Indian IFSC codes for bank transfers"
    ∷ entry "upi_id"
        "\\b[\\w.\\-]+@(?:okaxis|okhdfcbank|okicici|oksbi|paytm|ybl|ibl|axl|upi|apl|rapl|waicici|wahdfcbank)\\b"
        "[UPI_ID]" 95 "Indian UPI payment IDs"
    ∷ entry "aadhaar" "\\b[2-9]{1}[0-9]{3}\\s?[0-9]{4}\\s?[0-9]{4}\\b" "[AADHAAR]" 90
        "Indian Aadhaar 12-digit identity number"
    ∷ entry "pan_card" "\\b[A-Z]{5}[0-9]{4}[A-Z]{1}\\b" "[PAN]" 89
        "Indian Permanent Account Number (tax ID)"
    ∷ entry "passport_india" "\\b[A-PR-WYa-pr-wy][1-9]\\d\\s?\\d{4}[1-9]\\b" "[PASSPORT]" 88
        "Indian passport number"
    ∷ entry "voter_id_india" "\\b[A-Z]{3}[0-9]{7}\\b" "[VOTER_ID]" 87
        "Indian Voter ID (EPIC) number"
    ∷ entry "driving_license_india" "\\b[A-Z]{2}[0-9]{2}\\s?[0-9]{4}[0-9]{7}\\b" "[DL_NUMBER]" 86
        "Indian driving license number"
    ∷ entry "ssn_us" "\\b(?!000|666|9\\d{2})\\d{3}-(?!00)\\d{2}-(?!0000)\\d{4}\\b" "[SSN]" 85
        "US Social Security Number"
    ∷ entry "passport_generic" "\\b[A-Z]{1,2}[0-9]{6,9}\\b" "[PASSPORT]" 84
        "Generic passport number pattern"
    ∷ entry "national_id_generic"
        "\\b(?:national\\s?id|nid|id\\s?number|id\\s?no)[:\\s]*[A-Z0-9\\-]{6,20}\\b" "[NATIONAL_ID]"
        83 "Generic national ID near keywords"
    ∷ entry "email" "\\b[A-Za-z0-9._%+\\-]+@[A-Za-z0-9.\\-]+\\.[A-Za-z]{2,}\\b" "[EMAIL]" 80
        "Email addresses"
    ∷ entry "phone_india" "\\b(?:\\+91|91)?[6-9]\\d{9}\\b" "[PHONE]" 79
        "Indian mobile numbers (6-9 prefix, 10 digits)"
    ∷ entry "phone_us" "\\b(?:\\+1[\\s.-]?)?\\(?[2-9]\\d{2}\\)?[\\s.-]?[2-9]\\d{2}[\\s.-]?\\d{4}\\b"
        "[PHONE]" 78 "US phone numbers"
    ∷ entry "phone_international" "\\b\\+(?:[0-9] ?){6,14}[0-9]\\b" "[PHONE]" 77
        "International phone numbers with + prefix"
    ∷ entry "phone_generic" "\\b\\d{3}[-.\\s]?\\d{3}[-.\\s]?\\d{4}\\b" "[PHONE]" 76
        "Generic 10-digit phone numbers"
    ∷ entry "ipv4"
        "\\b(?:(?:25[0-5]|2[0-4]\\d|[01]?\\d\\d?)\\.){3}(?:25[0-5]|2[0-4]\\d|[01]?\\d\\d?)\\b"
        "[IP_ADDRESS]" 70 "IPv4 addresses"
    ∷ entry "ipv6" "\\b(?:[0-9a-fA-F]{1,4}:){7}[0-9a-fA-F]{1,4}\\b" "[IP_ADDRESS]" 69
        "IPv6 addresses"
    ∷ entry "mac_address" "\\b(?:[0-9a-fA-F]{2}[:\\-]){5}[0-9a-fA-F]{2}\\b" "[MAC_ADDRESS]" 68
        "MAC addresses"
    ∷ entry "jwt_token" "\\beyJ[A-Za-z0-9\\-_]+\\.[A-Za-z0-9\\-_]+\\.[A-Za-z0-9\\-_]+\\b"
        "[JWT_TOKEN]" 60 "JWT tokens (start with eyJ)"
    ∷ entry "api_key_generic"
        "\\b(?:api[_\\-]?key|apikey|access[_\\-]?token|secret[_\\-]?key)[:\\s=]+[A-Za-z0-9\\-_]{20,}\\b"
        "[API_KEY]" 59 "API keys near keyword labels"
    ∷ entry "aws_access_key" "\\bAKIA[0-9A-Z]{16}\\b" "[AWS_ACCESS_KEY]" 58 "AWS access key IDs"
    ∷ entry "password_in_text" "\\b(?:password|passwd|pwd)[:\\s=]+\\S+" "[PASSWORD]" 57
        "Passwords appearing after 'password:' labels"
    ∷ entry "pincode_india" "\\b[1-9][0-9]{5}\\b" "[PINCODE]" 40
        "Indian PIN codes (6 digits, not starting with 0)"
    ∷ entry "zipcode_us" "\\b\\d{5}(?:-\\d{4})?\\b" "[ZIPCODE]" 39 "US ZIP codes"
    ∷ entry "medical_record"
        "\\b(?:mrn|medical\\s?record\\s?(?:number|no|#))[:\\s]*[A-Z0-9\\-]{4,20}\\b"
        "[MEDICAL_RECORD]" 30 "Medical record numbers"
    ∷ entry "health_insurance"
        "\\b(?:insurance\\s?id|policy\\s?(?:number|no))[:\\s]*[A-Z0-9\\-]{6,20}\\b" "[INSURANCE_ID]"
        29 "Health insurance IDs"
    ∷ []
